-- ===== src/Scheduler/Claim/Credit.antt =====
-- The stored credits in the claims of a tick.
use proxy_fleet.Common.{
  ℕ, String, ◌≡◌, refl, Option, List, [], ◌∷◌, length, ◌==◌, Bool-cases, inl, inr, max, ap, ◌∙◌,
}
use proxy_fleet.Common.Float.{Float}
use proxy_fleet.Domain.Lifecycle.{LifecycleState}
use proxy_fleet.Store.Schema.{Node}
use proxy_fleet.Scheduler.Debt.{QueueDebt, accrue, from_value}
use proxy_fleet.Scheduler.Claim.{
  Claims, Tick, claim_round, guaranteed, overflow, queue_order, claim_due_with_pressure,
}

module _ (f : Float) (t : Tick f) where
  guaranteed_claims :
      (capacity : ℕ) (queues : List (LifecycleState × String)) (claims : Claims f)
      (d e : QueueDebt f)
      → (guaranteed f t capacity queues (claims, d)).0
        ≡ (guaranteed f t capacity queues (claims, e)).0
  unfolding guaranteed claim_round
  guaranteed_claims capacity [] claims d e = refl
  guaranteed_claims capacity (queue ∷ queues) claims d e = guaranteed_claims capacity queues _ _ _

  overflow_claims :
      (capacity : ℕ) (queues : List (LifecycleState × String)) (claims : Claims f)
      (d e : QueueDebt f)
      → (overflow f t capacity queues (claims, d)).0 ≡ (overflow f t capacity queues (claims, e)).0
  unfolding overflow claim_round
  overflow_claims capacity [] claims d e = refl
  overflow_claims capacity (queue ∷ queues) claims d e =
      elim (Bool-cases (length claims.1 == capacity)) [
        | inl full ↦ rw full refl
        | inr open_slots ↦ rw open_slots (overflow_claims capacity queues _ _ _)
      ]

  both_loops :
      (capacity : ℕ) (claims : Claims f) (d e : QueueDebt f)
      → (overflow f t capacity queue_order (guaranteed f t capacity queue_order (claims, d))).0
        ≡ (overflow f t capacity queue_order (guaranteed f t capacity queue_order (claims, e))).0
  both_loops capacity claims d e =
      let s = guaranteed f t capacity queue_order (claims, d) in
      let s' = guaranteed f t capacity queue_order (claims, e) in
      overflow_claims capacity queue_order s.0 s.1 s'.1
      ∙ ap (λ (c : Claims f). (overflow f t capacity queue_order (c, s'.1)).0)
          (guaranteed_claims capacity queue_order claims d e)

  -- Whatever credit the queues have saved up or overdrawn, a tick claims the same jobs and leaves
  -- the same nodes, if other tasks do the same meanwhile.
  pub credit_is_ignored :
      (nodes : List (Node f)) (d e : Option (QueueDebt f))
      → ((claim_due_with_pressure f t nodes d).jobs ≡ (claim_due_with_pressure f t nodes e).jobs)
        × ((claim_due_with_pressure f t nodes d).nodes
            ≡ (claim_due_with_pressure f t nodes e).nodes)
  unfolding claim_due_with_pressure
  credit_is_ignored nodes d e =
      let same =
        both_loops (max t.capacity 1) (nodes, []) (accrue f (max t.capacity 1) (from_value f d))
          (accrue f (max t.capacity 1) (from_value f e)) in
      (ap (λ (c : Claims f). c.1) same, ap (λ (c : Claims f). c.0) same)
