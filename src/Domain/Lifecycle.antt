-- ===== src/Domain/Lifecycle.antt =====
-- src/src/domain/proxy.rs: the lifecycle states, and their stored spelling.
use proxy_fleet.Common.{
  String, ◌≡◌, refl, Bool, true, false, str_eq, ◌||◌, if◌then◌else◌, Result, ok, err,
}

pub data LifecycleState : Type 0 where
  candidate testing active probation dormant invalid retired waiting_for_port : LifecycleState

pub LifecycleState-discrete : Discrete LifecycleState
LifecycleState-discrete = hlevel

unfoldable pub as_str : LifecycleState → String
as_str candidate = "CANDIDATE"
as_str testing = "TESTING"
as_str active = "ACTIVE"
as_str probation = "PROBATION"
as_str dormant = "DORMANT"
as_str invalid = "INVALID"
as_str retired = "RETIRED"
as_str waiting_for_port = "WAITING_FOR_PORT"

unfoldable pub publishable_state : LifecycleState → Bool
publishable_state invalid = false
publishable_state retired = false
publishable_state _ = true

unfoldable pub from_str : String → Result String LifecycleState
from_str value =
    if str_eq value "CANDIDATE"
    then ok candidate
    else if str_eq value "TESTING"
    then ok testing
    else if str_eq value "ACTIVE"
    then ok active
    else if str_eq value "PROBATION"
    then ok probation
    else if str_eq value "DORMANT" || str_eq value "DEAD"
    then ok dormant
    else if str_eq value "INVALID"
    then ok invalid
    else if str_eq value "RETIRED" || str_eq value "REMOVED"
    then ok retired
    else if str_eq value "WAITING_FOR_PORT"
    then ok waiting_for_port
    else err "unknown lifecycle state"

-- The derived `PartialEq`.
abbrev pub eq_state : LifecycleState → LifecycleState → Bool
eq_state candidate candidate = true
eq_state testing testing = true
eq_state active active = true
eq_state probation probation = true
eq_state dormant dormant = true
eq_state invalid invalid = true
eq_state retired retired = true
eq_state waiting_for_port waiting_for_port = true
eq_state _ _ = false

from_str-as_str : (s : LifecycleState) → from_str (as_str s) ≡ ok s
unfolding from_str as_str
from_str-as_str candidate = refl
from_str-as_str _ = refl
