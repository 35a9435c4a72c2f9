-- ===== src/Health/Transitions.antt =====
-- Which lifecycle a decision may lead to, and for what reason.
use proxy_fleet.Common.{
  ℕ, ◌+◌, ◌≤◌, ◌≡◌, refl, ◌≢◌, ◌↔◌, ◌⊎◌, true, false, Option, none, some, arith,
}
use proxy_fleet.Common.Float.{Float}
use proxy_fleet.Domain.Failure.{
  FailureClass, invalid_config, success, inconclusive, is_success, is_invalid_config,
}
use proxy_fleet.Domain.Lifecycle.{active, probation, invalid, retired}
use proxy_fleet.Domain.Evidence.{TestStage, minutes, download, is_download, health}
use proxy_fleet.Health.{HealthInput, HealthDecision, active_resident, decide}

is_success_iff : (c : FailureClass) → (is_success c ≡ true) ↔ (c ≡ success)
unfolding is_success
is_success_iff c = ground arith

is_invalid_config_iff : (c : FailureClass) → (is_invalid_config c ≡ true) ↔ (c ≡ invalid_config)
unfolding is_invalid_config
is_invalid_config_iff c = ground arith

is_download_iff : (s : TestStage) → (is_download s ≡ true) ↔ (s ≡ download)
unfolding is_download
is_download_iff s = ground arith

-- The node has been ACTIVE for at least its minimal residence.
abbrev IsResident : Option ℕ → ℕ → ℕ → Type 0
IsResident activated_at now residence =
    (since : ℕ) × (activated_at ≡ some since) × (since + residence ≤ now)

active_resident_iff :
    (f : Float) (a : Option ℕ) (now residence : ℕ)
    → (active_resident f a now residence ≡ true) ↔ IsResident a now residence
unfolding active_resident
active_resident_iff f none now residence = (λ h. cc, λ h. cc h.1)
active_resident_iff f (some t) now residence =
    (λ h. (t, refl, ground arith), λ h. ground (arith, h.1, h.2))

module _ (f : Float) (draw : ℕ → ℕ) (input : HealthInput f) where
  open f use {lt, le, ratio}

  abbrev decision : HealthDecision f
  decision = decide f draw input

  abbrev score : f.F
  score = health f input.alpha input.beta

  abbrev RealDownload : Type 0
  RealDownload = (input.class ≡ success) × (input.stage ≡ download)

  -- A node becomes ACTIVE only by a real download, or out of PROBATION at a score of 0.70.
  pub activation :
      decision.lifecycle ≡ active
      → input.prior_lifecycle ≢ active
      → RealDownload ⊎ ((input.prior_lifecycle ≡ probation) × (le (ratio 70 100) score ≡ true))
  unfolding decide
  activation h n = ground (arith, is_success_iff input.class, is_download_iff input.stage)

  -- An ACTIVE node goes to PROBATION exactly when the outcome is neither an invalid configuration
  -- nor a real download, its residence is over, its score is below 0.35 and at least two
  -- independent failures are counted.
  pub demotion :
      input.prior_lifecycle ≡ active
      → (decision.lifecycle ≡ probation) ↔ (
          (input.class ≢ invalid_config)
          × ((is_success input.class ≡ false) ⊎ (is_download input.stage ≡ false))
          × IsResident input.activated_at input.now input.active_min_residence
          × (lt score (ratio 35 100) ≡ true)
          × (2 ≤ decision.independent_failures))
  unfolding decide
  demotion a = (
    λ h. (
      ground (arith, is_invalid_config_iff input.class),
      ground arith,
      residence.0 (ground arith),
      ground arith,
      ground arith,
    ),
    λ h. ground (arith, is_invalid_config_iff input.class, residence.1 h.2),
  )
    where
      residence :
          (active_resident f input.activated_at input.now input.active_min_residence ≡ true)
          ↔ IsResident input.activated_at input.now input.active_min_residence
      residence = active_resident_iff f input.activated_at input.now input.active_min_residence

  -- An inconclusive outcome keeps both failure counters and the publication lease, and asks for a
  -- new test after two minutes. It leads to INVALID only from INVALID, and to ACTIVE only from
  -- ACTIVE or PROBATION.
  pub inconclusive_neutral :
      inconclusive input.class ≡ true
      → (decision.failure_streak ≡ input.failure_streak)
        × (decision.independent_failures ≡ input.independent_failures)
        × (decision.lease_until ≡ input.prior_lease_until)
        × (decision.next_test_at ≡ input.now + minutes 2)
        × (decision.lifecycle ≡ invalid → input.prior_lifecycle ≡ invalid)
        × (decision.lifecycle ≡ active
            → (input.prior_lifecycle ≡ active) ⊎ (input.prior_lifecycle ≡ probation))
  unfolding decide is_success is_invalid_config inconclusive
  inconclusive_neutral h =
      (ground arith, ground arith, ground arith, ground arith, λ e. ground arith, λ e. ground arith)

  -- On an inconclusive outcome an ACTIVE node goes to PROBATION exactly when its residence is
  -- over, its score is below 0.35 and at least two independent failures were counted before.
  pub inconclusive_demotes :
      inconclusive input.class ≡ true
      → input.prior_lifecycle ≡ active
      → (decision.lifecycle ≡ probation) ↔ (
          IsResident input.activated_at input.now input.active_min_residence
          × (lt score (ratio 35 100) ≡ true)
          × (2 ≤ input.independent_failures))
  unfolding is_success is_invalid_config inconclusive
  inconclusive_demotes h a = (
    λ e. let d = (demotion a).0 e in (d.2, d.3, omega (arith, d.4, (inconclusive_neutral h).1)),
    λ d.
        (demotion a).1 (
          λ e. ground arith,
          ground arith,
          d.0,
          d.1,
          omega (arith, d.2, (inconclusive_neutral h).1),
        ),
  )

  -- INVALID is terminal. RETIRED is left by a decision only for INVALID, on an invalid
  -- configuration.
  pub terminal :
      (input.prior_lifecycle ≡ invalid → decision.lifecycle ≡ invalid)
      × (input.prior_lifecycle ≡ retired
          → (decision.lifecycle ≡ retired)
            ⊎ ((decision.lifecycle ≡ invalid) × (input.class ≡ invalid_config)))
  unfolding decide
  terminal = (λ h. ground arith, λ h. ground (arith, is_invalid_config_iff input.class))
