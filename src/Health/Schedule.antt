-- ===== src/Health/Schedule.antt =====
-- When a node is tested again, and how long it stays published.
use native.Mathlib.Nat.{pow-le-pow_right, one-le-pow}
use native.Mathlib.Decide.{dec_le}
use proxy_fleet.Common.{
  ℕ, zero, suc, ◌+◌, ◌*◌, ◌^◌, ◌≤◌, ◌≡◌, Bool, true, false, some, arith, max, min, if◌then◌else◌,
  saturating_mul_u64, saturating_add_u32, unwrap_or,
}
use proxy_fleet.Common.Float.{Float}
use proxy_fleet.Domain.Failure.{FailureClass, inconclusive, is_success, is_connection_refused}
use proxy_fleet.Domain.Lifecycle.{LifecycleState, dormant, eq_state}
use proxy_fleet.Domain.Evidence.{
  hours, seconds, lease_length, lease_until, recovery_ceiling, backoff_range, backoff_shift,
  from_bool, backoff_ceiling, full_jitter_delay,
}
use proxy_fleet.Health.{HealthInput, HealthDecision, next_test, decide}

pow-two_bounds : (k : ℕ) → k ≤ 20 → (1 ≤ 2 ^ k) × (2 ^ k ≤ 1_048_576)
pow-two_bounds k h = (one-le-pow k 2 (omega arith), pow-le-pow_right (omega arith) h)

-- The exponent is at most 20, so the 64-bit product never saturates.
scaled_exact : (base k : ℕ) → k ≤ 20 → base ≤ 86400 → saturating_mul_u64 base (2 ^ k) ≡ base * 2 ^ k
scaled_exact base k h b = ground (arith, product)
  where
    product : base * 2 ^ k ≤ 86400 * 1_048_576
    product = grind (arith, (pow-two_bounds k h).1)

le-scale : (b n : ℕ) → 1 ≤ b → n ≤ b * n
le-scale b n h = grind arith

-- Cutting the exponent off at 20 changes nothing below the limit.
capped :
    (base limit s : ℕ)
    → 1 ≤ base
    → base ≤ 86400
    → limit ≤ 86400
    → min (saturating_mul_u64 base (2 ^ min s 20)) limit ≡ min (base * 2 ^ s) limit
capped base limit s low high c = elim (dec_le s 20) [
  | yes small ↦ let e : min s 20 ≡ s = omega arith in rw (e, scaled_exact base s small high)
  | no large ↦
      let e : min s 20 ≡ 20 = omega arith in
      let p : 2 ^ 20 ≤ 2 ^ s = pow-le-pow_right (omega arith) {i = 20} (omega arith) in
      let q : 2 ^ s ≤ base * 2 ^ s = le-scale base (2 ^ s) low in
      rw (e, scaled_exact base 20 (omega arith) high) (omega arith)
]

fixed_range : (r p : ℕ) → 1 ≤ p → r ≤ 86400 → min (saturating_mul_u64 r p) r ≡ r
fixed_range r p one small = let q : r ≤ p * r = le-scale p r one in ground arith

recovery_ceiling-le : (streak : ℕ) → recovery_ceiling streak ≤ 86400
unfolding recovery_ceiling
recovery_ceiling-le zero = omega arith
recovery_ceiling-le (suc zero) = omega arith
recovery_ceiling-le (suc (suc n)) = omega arith

-- A DORMANT node waits at most 6, 12 and then 24 hours, whatever the failure was.
pub dormant_backoff :
    (streak : ℕ) (had : Bool) (class : FailureClass)
    → backoff_ceiling streak had true class ≡ recovery_ceiling streak
unfolding backoff_ceiling
dormant_backoff streak had class =
    fixed_range (recovery_ceiling streak) _
      (one-le-pow (backoff_shift streak class) 2 (omega arith)) (recovery_ceiling-le streak)

shift_step : (streak b : ℕ) → min (saturating_add_u32 streak b) 20 ≡ min (streak + b) 20
shift_step streak b = ground arith

doubled :
    (s : ℕ) (had refused : Bool)
    → let (base, limit) = backoff_range s had false in
      min (saturating_mul_u64 base (2 ^ min (saturating_add_u32 s (from_bool refused)) 20)) limit
      ≡ (if had
          then min (300 * 2 ^ (s + from_bool refused)) 21600
          else min (1800 * 2 ^ (s + from_bool refused)) 86400)
unfolding backoff_range
doubled s true refused =
    rw (shift_step s (from_bool refused))
      (capped 300 21600 (s + from_bool refused) (omega arith) (omega arith) (omega arith))
doubled s false refused =
    rw (shift_step s (from_bool refused))
      (capped 1800 86400 (s + from_bool refused) (omega arith) (omega arith) (omega arith))

-- Outside DORMANT the ceiling doubles with each failure, from 5 minutes up to 6 hours for a node
-- that has passed a real download, and from 30 minutes up to 24 hours for any other. A refused
-- connection counts as one failure more.
pub backoff_doubles :
    (streak : ℕ) (had : Bool) (class : FailureClass)
    → let s = streak + from_bool (is_connection_refused class) in
      backoff_ceiling streak had false class
      ≡ (if had then min (300 * 2 ^ s) 21600 else min (1800 * 2 ^ s) 86400)
unfolding backoff_ceiling
backoff_doubles streak had class = doubled streak had (is_connection_refused class)

backoff_ceiling-le :
    (streak : ℕ) (had dorm : Bool) (class : FailureClass)
    → backoff_ceiling streak had dorm class ≤ 86400
backoff_ceiling-le streak had true class = rw dormant_backoff (recovery_ceiling-le streak)
backoff_ceiling-le streak true false class = rw backoff_doubles (omega arith)
backoff_ceiling-le streak false false class = rw backoff_doubles (omega arith)

module _ (f : Float) (draw : ℕ → ℕ) (drawn : (c : ℕ) → draw c ≤ c) (input : HealthInput f) where
  abbrev decision : HealthDecision f
  decision = decide f draw input

  abbrev ceiling_for : LifecycleState → ℕ → ℕ
  ceiling_for lifecycle streak =
      backoff_ceiling streak input.had_real_download (eq_state lifecycle dormant) input.class

  next_test_failure :
      (lifecycle : LifecycleState) (streak : ℕ)
      → is_success input.class ≡ false
      → inconclusive input.class ≡ false
      → next_test f draw input lifecycle streak
        ≡ input.now + seconds (draw (ceiling_for lifecycle streak))
  unfolding next_test full_jitter_delay
  next_test_failure lifecycle streak s n = rw (s, n)

  delay_bounds :
      (lifecycle : LifecycleState) (streak : ℕ)
      → is_success input.class ≡ false
      → inconclusive input.class ≡ false
      → let at = next_test f draw input lifecycle streak in
        (input.now ≤ at)
        × (at ≤ input.now + seconds (ceiling_for lifecycle streak))
        × (at ≤ input.now + hours 24)
  delay_bounds lifecycle streak s n = rw (next_test_failure lifecycle streak s n) (
      omega (
        arith,
        drawn (ceiling_for lifecycle streak),
        backoff_ceiling-le streak input.had_real_download (eq_state lifecycle dormant) input.class,
      ))

  -- After a failure the next test comes within 24 hours, and within the ceiling of the backoff
  -- for the failure streak and the lifecycle of the decision.
  pub failure_delay :
      is_success input.class ≡ false
      → inconclusive input.class ≡ false
      → (input.now ≤ decision.next_test_at)
        × (decision.next_test_at
            ≤ input.now
              + seconds (
                  backoff_ceiling decision.failure_streak input.had_real_download
                    (eq_state decision.lifecycle dormant)
                    input.class))
        × (decision.next_test_at ≤ input.now + hours 24)
  unfolding decide
  failure_delay s n = delay_bounds decision.lifecycle decision.failure_streak s n

  -- Only a success moves the publication lease, to the end of the window that the stage and the
  -- speed earn, and never to an earlier time.
  pub lease_moves :
      (decision.lease_until ≡ (
        if is_success input.class
        then some (
            max
              (unwrap_or input.prior_lease_until 0)
              (input.now + lease_length input.stage input.fast_download))
        else input.prior_lease_until))
  unfolding decide lease_until
  lease_moves = ground arith
