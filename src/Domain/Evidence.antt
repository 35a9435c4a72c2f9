-- ===== src/Domain/Evidence.antt =====
-- src/src/domain/evidence.rs: what a probe outcome weighs, how evidence fades, how long a success
-- keeps a proxy published, and how long a failure postpones its next test.
-- An instant (`DateTime<Utc>`) and a `Duration` are counted in nanoseconds.
use proxy_fleet.Common.{
  String, ℕ, zero, suc, ◌+◌, ◌*◌, ◌/◌, ◌^◌, Bool, true, false, ◌==◌, ◌||◌, if◌then◌else◌,
  saturating_add_u32, saturating_mul_u64, min, max,
}
use proxy_fleet.Common.Float.{Float, fclamp, fmax}
use proxy_fleet.Domain.Failure.{
  FailureClass, invalid_config, xray_start_failed, dns_failure, tcp_timeout, connection_refused,
  tls_timeout, relay_timeout, http_failure, download_timeout, download_too_slow, local_overload,
  endpoint_failure, success, is_connection_refused,
}

pub data TestStage : Type 0 where
  static dns_tcp relay http download : TestStage

pub TestStage-discrete : Discrete TestStage
TestStage-discrete = hlevel

unfoldable pub stage_str : TestStage → String
stage_str static = "STATIC"
stage_str dns_tcp = "DNS_TCP"
stage_str relay = "RELAY"
stage_str http = "HTTP"
stage_str download = "DOWNLOAD"

-- The derived `PartialEq` at `TestStage::Download`.
unfoldable pub is_download : TestStage → Bool
is_download download = true
is_download _ = false

abbrev pub seconds : ℕ → ℕ
seconds n = n * 1_000_000_000

abbrev pub minutes : ℕ → ℕ
minutes n = seconds (n * 60)

abbrev pub hours : ℕ → ℕ
hours n = seconds (n * 3600)

module _ (f : Float) where
  open f use {F, le, add, mul, div, powf, ratio, of_ℕ}

  pub record EvidenceDelta : Type 0 where
    pub alpha : F
    pub beta : F
    pub half_life : ℕ

  abbrev weigh : F → F → ℕ → EvidenceDelta
  weigh a b n = record { alpha = a; beta = b; half_life = hours n }

  unfoldable pub delta : TestStage → FailureClass → Bool → EvidenceDelta
  delta _ local_overload _ = weigh (of_ℕ 0) (of_ℕ 0) 2
  delta _ endpoint_failure _ = weigh (of_ℕ 0) (of_ℕ 0) 2
  delta _ invalid_config _ = weigh (of_ℕ 0) (of_ℕ 8) 12
  delta download success true = weigh (of_ℕ 8) (of_ℕ 0) 24
  delta download success false = weigh (of_ℕ 5) (of_ℕ 0) 24
  delta http success _ = weigh (of_ℕ 3) (of_ℕ 0) 6
  delta relay success _ = weigh (of_ℕ 1) (of_ℕ 0) 6
  delta _ tls_timeout _ = weigh (of_ℕ 0) (ratio 1 2) 2
  delta _ tcp_timeout _ = weigh (of_ℕ 0) (of_ℕ 1) 2
  delta _ dns_failure _ = weigh (of_ℕ 0) (of_ℕ 1) 2
  delta _ relay_timeout _ = weigh (of_ℕ 0) (of_ℕ 1) 2
  delta _ download_timeout _ = weigh (of_ℕ 0) (of_ℕ 1) 2
  delta _ connection_refused _ = weigh (of_ℕ 0) (of_ℕ 2) 12
  delta download download_too_slow _ = weigh (of_ℕ 0) (of_ℕ 3) 12
  delta _ xray_start_failed _ = weigh (of_ℕ 0) (of_ℕ 1) 12
  delta _ http_failure _ = weigh (of_ℕ 0) (of_ℕ 1) 12
  delta _ _ _ = weigh (of_ℕ 0) (of_ℕ 0) 2

  -- A negative elapsed time takes the same branch as 0, so it is cut off at 0.
  unfoldable pub decay : F → ℕ → ℕ → F
  decay value elapsed half_life =
      if le value (of_ℕ 0) || elapsed == 0
      then fmax f value (of_ℕ 0)
      else mul value (
          powf (ratio 1 2)
            (div (of_ℕ (elapsed / 1_000_000)) (of_ℕ (max (half_life / 1_000_000) 1))))

  unfoldable pub health : F → F → F
  health alpha beta =
      let total = add alpha beta in
      if le total (of_ℕ 0) then ratio 1 2 else fclamp f (of_ℕ 0) (of_ℕ 1) (div alpha total)

-- How long a success at this stage keeps the proxy published.
unfoldable pub lease_length : TestStage → Bool → ℕ
lease_length download true = hours 12
lease_length download false = hours 6
lease_length http _ = hours 2
lease_length relay _ = minutes 30
lease_length _ _ = 0

unfoldable pub lease_until : TestStage → Bool → ℕ → ℕ
unfolding lease_length
lease_until stage fast_download now = now + lease_length stage fast_download

-- `recovery_ceiling`, in seconds.
unfoldable pub recovery_ceiling : ℕ → ℕ
recovery_ceiling zero = 21600
recovery_ceiling (suc zero) = 43200
recovery_ceiling (suc (suc _)) = 86400

-- (base_seconds, cap_seconds)
unfoldable pub backoff_range : ℕ → Bool → Bool → ℕ × ℕ
unfolding recovery_ceiling
backoff_range failure_streak had_real_success true =
    (recovery_ceiling failure_streak, recovery_ceiling failure_streak)
backoff_range failure_streak true false = (300, 21600)
backoff_range failure_streak false false = (1800, 86400)

abbrev pub from_bool : Bool → ℕ
from_bool true = 1
from_bool false = 0

-- The exponent: a refused connection counts one step more.
unfoldable pub backoff_shift : ℕ → FailureClass → ℕ
unfolding is_connection_refused
backoff_shift failure_streak class =
    min (saturating_add_u32 failure_streak (from_bool (is_connection_refused class))) 20

-- The largest delay, in seconds.
unfoldable pub backoff_ceiling : ℕ → Bool → Bool → FailureClass → ℕ
unfolding backoff_range backoff_shift
backoff_ceiling failure_streak had_real_success dormant class =
    let (base, cap) = backoff_range failure_streak had_real_success dormant in
    min (saturating_mul_u64 base (2 ^ backoff_shift failure_streak class)) cap

-- `draw c` stands for `rand::rng().random_range(0..=c)`.
unfoldable pub full_jitter_delay : (ℕ → ℕ) → ℕ → Bool → Bool → FailureClass → ℕ
full_jitter_delay draw failure_streak had_real_success dormant class =
    seconds (draw (backoff_ceiling failure_streak had_real_success dormant class))
