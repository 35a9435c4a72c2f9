-- ===== src/Domain/Failure.antt =====
-- src/src/domain/failure.rs: the classes of probe outcomes, and their stored spelling.
use proxy_fleet.Common.{
  String, ◌≡◌, refl, Bool, true, false, ◌↔◌, str_eq, eq_iff, if◌then◌else◌, Result, ok, err,
  Bool-cases, ap, ◌∙◌, inl, inr, ok-injective,
}

pub data FailureClass : Type 0 where
  invalid_config xray_start_failed dns_failure tcp_timeout connection_refused : FailureClass
  tls_timeout relay_timeout http_failure download_timeout download_too_slow : FailureClass
  local_overload endpoint_failure success : FailureClass

pub FailureClass-discrete : Discrete FailureClass
FailureClass-discrete = hlevel

pub as_str : FailureClass → String
as_str invalid_config = "INVALID_CONFIG"
as_str xray_start_failed = "XRAY_START_FAILED"
as_str dns_failure = "DNS_FAILURE"
as_str tcp_timeout = "TCP_TIMEOUT"
as_str connection_refused = "CONNECTION_REFUSED"
as_str tls_timeout = "TLS_TIMEOUT"
as_str relay_timeout = "RELAY_TIMEOUT"
as_str http_failure = "HTTP_FAILURE"
as_str download_timeout = "DOWNLOAD_TIMEOUT"
as_str download_too_slow = "DOWNLOAD_TOO_SLOW"
as_str local_overload = "LOCAL_OVERLOAD"
as_str endpoint_failure = "ENDPOINT_FAILURE"
as_str success = "SUCCESS"

pub from_str : String → Result String FailureClass
from_str value =
    if str_eq value "INVALID_CONFIG"
    then ok invalid_config
    else if str_eq value "XRAY_START_FAILED"
    then ok xray_start_failed
    else if str_eq value "DNS_FAILURE"
    then ok dns_failure
    else if str_eq value "TCP_TIMEOUT"
    then ok tcp_timeout
    else if str_eq value "CONNECTION_REFUSED"
    then ok connection_refused
    else if str_eq value "TLS_TIMEOUT"
    then ok tls_timeout
    else if str_eq value "RELAY_TIMEOUT"
    then ok relay_timeout
    else if str_eq value "HTTP_FAILURE"
    then ok http_failure
    else if str_eq value "DOWNLOAD_TIMEOUT"
    then ok download_timeout
    else if str_eq value "DOWNLOAD_TOO_SLOW"
    then ok download_too_slow
    else if str_eq value "LOCAL_OVERLOAD"
    then ok local_overload
    else if str_eq value "ENDPOINT_FAILURE"
    then ok endpoint_failure
    else if str_eq value "SUCCESS"
    then ok success
    else err "unknown failure class"

unfoldable pub inconclusive : FailureClass → Bool
inconclusive local_overload = true
inconclusive endpoint_failure = true
inconclusive _ = false

unfoldable pub hard_failure : FailureClass → Bool
hard_failure invalid_config = true
hard_failure xray_start_failed = true
hard_failure connection_refused = true
hard_failure download_too_slow = true
hard_failure _ = false

-- `class == FailureClass::Success` and the like: the derived `PartialEq`
unfoldable pub is_success : FailureClass → Bool
is_success success = true
is_success _ = false

unfoldable pub is_invalid_config : FailureClass → Bool
is_invalid_config invalid_config = true
is_invalid_config _ = false

unfoldable pub is_connection_refused : FailureClass → Bool
is_connection_refused connection_refused = true
is_connection_refused _ = false

from_str-as_str : (c : FailureClass) → from_str (as_str c) ≡ ok c
unfolding from_str as_str
from_str-as_str invalid_config = refl
from_str-as_str _ = refl

-- One test of the chain: it decides, or the rest of the chain does.
from_str_test :
    (s t : String) (x c : FailureClass) (rest : Result String FailureClass)
    → t ≡ as_str x
    → (rest ≡ ok c → s ≡ as_str c)
    → (if str_eq s t then ok x else rest) ≡ ok c
    → s ≡ as_str c
from_str_test s t x c rest spelled later h = elim (Bool-cases (str_eq s t)) [
  | inl same ↦ (eq_iff s t).0 same ∙ spelled ∙ ap as_str (ok-injective (rw same at h))
  | inr other ↦ later (rw other at h)
]

as_str-from_str : (s : String) (c : FailureClass) → from_str s ≡ ok c → s ≡ as_str c
unfolding from_str as_str
as_str-from_str s c = from_str_test s _ invalid_config c _ refl (
    from_str_test s _ xray_start_failed c _ refl (
      from_str_test s _ dns_failure c _ refl (
        from_str_test s _ tcp_timeout c _ refl (
          from_str_test s _ connection_refused c _ refl (
            from_str_test s _ tls_timeout c _ refl (
              from_str_test s _ relay_timeout c _ refl (
                from_str_test s _ http_failure c _ refl (
                  from_str_test s _ download_timeout c _ refl (
                    from_str_test s _ download_too_slow c _ refl (
                      from_str_test s _ local_overload c _ refl (
                        from_str_test s _ endpoint_failure c _ refl
                          (from_str_test s _ success c _ refl (λ h. cc)))))))))))))

-- A stored text is read as a class exactly when it is the spelling that the class is stored with.
pub from_str_iff : (s : String) (c : FailureClass) → (from_str s ≡ ok c) ↔ (s ≡ as_str c)
from_str_iff s c = (as_str-from_str s c, λ e. rw e (from_str-as_str c))
