-- ===== src/Health.antt =====
-- src/src/health/mod.rs: the decision about a node after one probe outcome. The proofs are in the
-- modules below.
pub mod Transitions
pub mod Schedule
use proxy_fleet.Common.{
  ℕ, ◌+◌, Bool, true, false, not, ◌&&◌, ◌||◌, Option, none, some, leb, if◌then◌else◌,
  saturating_add_u32, or_else, max,
}
use proxy_fleet.Common.Float.{Float}
use proxy_fleet.Domain.Failure.{FailureClass, inconclusive, is_success, is_invalid_config}
use proxy_fleet.Domain.Lifecycle.{
  LifecycleState, candidate, testing, active, probation, dormant, invalid, retired,
  waiting_for_port, eq_state,
}
use proxy_fleet.Domain.Evidence.{
  TestStage, is_download, minutes, hours, lease_until, full_jitter_delay, health,
}

module _ (f : Float) where
  open f use {F, lt, le, ratio}

  pub record HealthInput : Type 0 where
    pub prior_lifecycle : LifecycleState
    pub prior_lease_until : Option ℕ
    pub activated_at : Option ℕ
    pub alpha : F
    pub beta : F
    pub failure_streak : ℕ  -- u32
    pub independent_failures : ℕ  -- u32
    pub new_independent_failure : Bool
    pub had_real_download : Bool
    pub stage : TestStage
    pub class : FailureClass
    pub fast_download : Bool
    pub now : ℕ
    pub active_relay_interval : ℕ
    pub active_download_interval : ℕ
    pub active_min_residence : ℕ

  pub record HealthDecision : Type 0 where
    pub lifecycle : LifecycleState
    pub score : F
    pub failure_streak : ℕ
    pub independent_failures : ℕ
    pub lease_until : Option ℕ
    pub next_test_at : ℕ

  -- `failure_streak` and `independent_failures` of the decision.
  unfoldable pub next_streak : FailureClass → ℕ → ℕ
  next_streak class streak =
      if is_success class
      then 0
      else if inconclusive class
      then streak
      else saturating_add_u32 streak 1

  unfoldable pub next_independent : FailureClass → Bool → ℕ → ℕ
  next_independent class fresh failures =
      if is_success class
      then 0
      else if inconclusive class
      then failures
      else if fresh
      then saturating_add_u32 failures 1
      else failures

  -- `now - activated_at >= active_min_residence`
  unfoldable pub active_resident : Option ℕ → ℕ → ℕ → Bool
  active_resident none now residence = false
  active_resident (some time) now residence = leb (time + residence) now

  -- The `match` on the prior lifecycle.
  unfoldable pub hysteresis : LifecycleState → Bool → Bool → F → ℕ → ℕ → LifecycleState
  hysteresis active resident succeeded score streak independent =
      if not resident
      then active
      else if lt score (ratio 35 100) && leb 2 independent
      then probation
      else active
  hysteresis probation resident succeeded score streak independent =
      if le (ratio 70 100) score
      then active
      else if lt score (ratio 15 100) && leb 3 streak
      then dormant
      else probation
  hysteresis dormant resident succeeded score streak independent =
      if le (ratio 70 100) score && succeeded then probation else dormant
  hysteresis retired _ _ _ _ _ = retired
  hysteresis invalid _ _ _ _ _ = invalid
  hysteresis waiting_for_port _ _ _ _ _ = waiting_for_port
  hysteresis testing _ _ _ _ _ = testing
  hysteresis candidate _ _ _ _ _ = candidate

  unfoldable pub next_lifecycle : HealthInput → LifecycleState
  unfolding hysteresis next_streak next_independent active_resident
  next_lifecycle input =
      if is_invalid_config input.class || eq_state input.prior_lifecycle invalid
      then invalid
      else if eq_state input.prior_lifecycle retired
      then retired
      else if is_success input.class && is_download input.stage
      then active
      else hysteresis input.prior_lifecycle
          (active_resident input.activated_at input.now input.active_min_residence)
          (is_success input.class) (health f input.alpha input.beta)
          (next_streak input.class input.failure_streak)
          (next_independent input.class input.new_independent_failure input.independent_failures)

  -- The later of two leases.
  unfoldable pub later_lease : Option ℕ → Option ℕ → Option ℕ
  later_lease (some current) (some fresh) = some (max current fresh)
  later_lease current fresh = or_else current fresh

  unfoldable pub next_lease : HealthInput → Option ℕ
  unfolding later_lease
  next_lease input = later_lease input.prior_lease_until (
      if is_success input.class
      then some (lease_until input.stage input.fast_download input.now)
      else none)

  -- How long after `now` a success is tested again.
  unfoldable pub revalidation : HealthInput → LifecycleState → ℕ
  revalidation input active =
      if is_download input.stage
      then input.active_download_interval
      else input.active_relay_interval
  revalidation input probation = minutes 15
  revalidation input dormant = hours 6
  revalidation input _ = minutes 5

  unfoldable pub next_test : (ℕ → ℕ) → HealthInput → LifecycleState → ℕ → ℕ
  unfolding revalidation
  next_test draw input lifecycle streak =
      input.now
      + (if is_success input.class
          then revalidation input lifecycle
          else if inconclusive input.class
          then minutes 2
          else full_jitter_delay draw streak input.had_real_download (eq_state lifecycle dormant)
              input.class)

  unfoldable pub decide : (ℕ → ℕ) → HealthInput → HealthDecision
  unfolding next_lifecycle next_lease next_test next_streak next_independent
  decide draw input =
      let lifecycle = next_lifecycle input in
      let streak = next_streak input.class input.failure_streak in
      record {
        lifecycle = lifecycle;
        score = health f input.alpha input.beta;
        failure_streak = streak;
        independent_failures =
            next_independent input.class input.new_independent_failure input.independent_failures;
        lease_until = next_lease input;
        next_test_at = next_test draw input lifecycle streak;
      }
