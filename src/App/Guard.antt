-- ===== src/App/Guard.antt =====
-- The network guard of src/src/app.rs (`spawn_network_guard`, `sentinel_health`): runs of failed
-- and of successful sentinel checks begin and end an incident. The scheduler (`spawn_scheduler`)
-- begins one too, on a mass failure.
use Prim.Native.String.{◌++◌ as str_append}
use proxy_fleet.Common.{
  String, ℕ, suc, ◌≤◌, ◌<◌, Bool, true, false, not, ◌&&◌, ◌||◌, ◌≡◌, refl, ap, ◌∙◌, Option, none,
  some, List, [], ◌∷◌, length, leb, min, max, if◌then◌else◌, saturating_add_u32, u32_max, arith,
}

-- `NetworkGuardConfig`, the fields that the loop reads, and its targets.
pub record Target : Type 0 where
  pub is_http : Bool
  pub reachable : Bool

pub record GuardConfig : Type 0 where
  pub failure_threshold : ℕ
  pub recovery_threshold : ℕ
  pub minimum_successful_targets : ℕ
  pub require_http_success : Bool

-- `network_guard_minimum_successes`
unfoldable pub minimum_successes : GuardConfig → ℕ → ℕ
minimum_successes c targets = min (max c.minimum_successful_targets 1) (max targets 1)

abbrev count_reachable : List Target → ℕ
count_reachable [] = 0
count_reachable (t ∷ ts) = let rest = count_reachable ts in if t.reachable then suc rest else rest

abbrev some_http : List Target → Bool
some_http [] = false
some_http (t ∷ ts) = (t.reachable && t.is_http) || some_http ts

-- The first component of `sentinel_health`, on what the connections came to. Whether the client
-- could be built is an argument.
unfoldable pub sentinel_health : GuardConfig → Bool → List Target → Bool
unfolding minimum_successes
sentinel_health c client [] = true
sentinel_health c client (t ∷ ts) =
    let targets = t ∷ ts in
    client
    && (leb (minimum_successes c (length targets)) (count_reachable targets)
        && (not c.require_http_success || some_http targets))

-- The two counters of the loop and `RuntimeStatus::network_incident`.
pub record Guard : Type 0 where
  pub failures : ℕ
  pub recoveries : ℕ
  pub network_incident : Bool

pub data Kind : Type 0 where
  started : ℕ → Kind
  recovered : Kind

abbrev pub fresh_guard : Guard
fresh_guard = record { failures = 0; recoveries = 0; network_incident = false }

-- One tick, with the answer of the sentinels: the guard, and the event that is recorded.
unfoldable pub tick : GuardConfig → Bool → Guard → Guard × Option Kind
tick c true g =
    let recoveries = saturating_add_u32 g.recoveries 1 in
    let ends = g.network_incident && leb (max c.recovery_threshold 1) recoveries in
    (
      record {
        failures = 0;
        recoveries = recoveries;
        network_incident = if ends then false else g.network_incident;
      },
      if ends then some recovered else none,
    )
tick c false g =
    let failures = saturating_add_u32 g.failures 1 in
    let begins = not g.network_incident && leb (max c.failure_threshold 1) failures in
    (
      record {
        failures = failures;
        recoveries = 0;
        network_incident = if begins then true else g.network_incident;
      },
      if begins then some (started failures) else none,
    )

-- `RuntimeStatus::network_message` after the tick: the old message, and that of the sentinels.
unfoldable pub next_message : GuardConfig → Bool → Guard → String → String → String
next_message c true g old message =
    if g.network_incident && leb (max c.recovery_threshold 1) (saturating_add_u32 g.recoveries 1)
    then str_append "recovered: " message
    else if not g.network_incident
    then message
    else old
next_message c false g old message = message

-- The scheduler's write of the same flag, on a mass failure of a batch.
unfoldable pub mass_failure : Guard → Guard
mass_failure g = record g { network_incident = true }

-- What happens to the guard: an answer of the sentinels, or a mass failure.
pub data Signal : Type 0 where
  answered : Bool → Signal
  failed_batch : Signal

-- The guard after a history, the newest first.
unfoldable pub after : GuardConfig → List Signal → Guard
unfolding tick mass_failure
after c [] = fresh_guard
after c (answered b ∷ earlier) = (tick c b (after c earlier)).0
after c (failed_batch ∷ earlier) = mass_failure (after c earlier)

-- How many of the newest answers in a row were `b`.
abbrev same : Bool → Bool → Bool
same true b = b
same false b = not b

unfoldable pub run : Bool → List Signal → ℕ
run b [] = 0
run b (answered a ∷ earlier) = let rest = run b earlier in if same b a then suc rest else 0
run b (failed_batch ∷ earlier) = run b earlier

-- Whether the history holds an incident, told from the lengths of its runs alone.
unfoldable pub in_incident : GuardConfig → List Signal → Bool
unfolding run
in_incident c [] = false
in_incident c (answered true ∷ earlier) =
    let before = in_incident c earlier in
    before && not (leb (max c.recovery_threshold 1) (run true (answered true ∷ earlier)))
in_incident c (failed_batch ∷ earlier) = true
in_incident c (answered false ∷ earlier) =
    let before = in_incident c earlier in
    before || leb (max c.failure_threshold 1) (run false (answered false ∷ earlier))

saturating_suc : (n : ℕ) → saturating_add_u32 (min n u32_max) 1 ≡ min (suc n) u32_max
saturating_suc n = ground arith

reaches_lem : (t n : ℕ) → t ≤ u32_max → leb (max t 1) (min n u32_max) ≡ leb (max t 1) n
reaches_lem t n h = ground arith

ends_lem : (on enough : Bool) → (if on && enough then false else on) ≡ on && not enough
ends_lem true true = refl
ends_lem true false = refl
ends_lem false enough = refl

begins_lem : (on enough : Bool) → (if not on && enough then true else on) ≡ on || enough
begins_lem true enough = refl
begins_lem false true = refl
begins_lem false false = refl

-- The guard that the history determines.
unfoldable pub guard_of : GuardConfig → List Signal → Guard
unfolding run in_incident
guard_of c history = record {
  failures = min (run false history) u32_max;
  recoveries = min (run true history) u32_max;
  network_incident = in_incident c history;
}

tick-guard_of :
    (c : GuardConfig) (answer : Bool) (earlier : List Signal)
    → c.failure_threshold ≤ u32_max
    → c.recovery_threshold ≤ u32_max
    → (tick c answer (guard_of c earlier)).0 ≡ guard_of c (answered answer ∷ earlier)
unfolding tick guard_of run in_incident
tick-guard_of c true earlier hf hr =
    let next = saturating_suc (run true earlier) in
    let enough = reaches_lem c.recovery_threshold (suc (run true earlier)) hr in
    rw (next, enough, ends_lem (in_incident c earlier)) refl
tick-guard_of c false earlier hf hr =
    let next = saturating_suc (run false earlier) in
    let enough = reaches_lem c.failure_threshold (suc (run false earlier)) hf in
    rw (next, enough, begins_lem (in_incident c earlier)) refl

-- After any history of sentinel answers and mass failures, the counters are the lengths of the
-- newest runs of failed and of healthy answers, mass failures left out, up to the largest 32-bit
-- number. An incident is on just when a run of failed answers has reached its threshold or a batch
-- has failed as a whole, and no later healthy answer has found its run of healthy answers at the
-- threshold of recovery. The thresholds are 32-bit numbers.
pub after_lem :
    (c : GuardConfig) (history : List Signal)
    → c.failure_threshold ≤ u32_max
    → c.recovery_threshold ≤ u32_max
    → after c history ≡ guard_of c history
unfolding after guard_of run in_incident mass_failure
after_lem c [] hf hr = refl
after_lem c (answered b ∷ earlier) hf hr =
    ap (λ g. (tick c b g).0) (after_lem c earlier hf hr) ∙ tick-guard_of c b earlier hf hr
after_lem c (failed_batch ∷ earlier) hf hr = ap mass_failure (after_lem c earlier hf hr)

-- The number of targets that must answer is positive, and no more than there are.
pub minimum_successes_bounds :
    (c : GuardConfig) (targets : ℕ)
    → 0 < targets
    → (1 ≤ minimum_successes c targets) × (minimum_successes c targets ≤ targets)
unfolding minimum_successes
minimum_successes_bounds c targets h = (omega arith, omega arith)
