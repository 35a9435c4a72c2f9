-- ===== src/Scheduler/Claim/Bounds.antt =====
-- How many jobs a tick of src/src/scheduler/mod.rs can claim.
use proxy_fleet.Common.{
  ℕ, ◌+◌, ◌-◌, ◌≤◌, String, Bool, true, false, Option, List, [], ◌∷◌, ◌++◌, length, ◌==◌, leb, ◌||◌,
  min, max, if◌then◌else◌, Bool-cases, inl, inr, arith, length-append,
}
use proxy_fleet.Common.Counting.{length-take-le}
use proxy_fleet.Common.Float.{Float}
use proxy_fleet.Domain.Lifecycle.{LifecycleState}
use proxy_fleet.Store.Schema.{Node}
use proxy_fleet.Scheduler.Debt.{QueueDebt}
use proxy_fleet.Scheduler.Claim.{
  Claims, ClaimParams, TestJob, Tick, select_due, take_rows, append_claims, claim_round, guaranteed,
  overflow, queue_order, claim_due_with_pressure,
}

module _ (f : Float) where
  select_due-le :
      (p : ClaimParams f) (limit : ℕ) (nodes : List (Node f))
      → length (select_due f p limit nodes) ≤ limit
  unfolding select_due
  select_due-le p limit nodes = length-take-le limit _

  length_if_push :
      (b : Bool) (jobs : List TestJob) (job : TestJob)
      → length (if b then jobs ++ job ∷ [] else jobs) ≤ length jobs + 1
  length_if_push true jobs job = omega (arith, length-append jobs (job ∷ []))
  length_if_push false jobs job = omega arith

  take_rows-le :
      (p : ClaimParams f) (rows nodes : List (Node f)) (jobs : List TestJob)
      → length (take_rows f p rows (nodes, jobs)).1 ≤ length jobs + length rows
  unfolding take_rows
  take_rows-le p [] nodes jobs = omega arith
  take_rows-le p (row ∷ rows) nodes jobs =
      omega (arith, take_rows-le p rows _ _, length_if_push _ jobs _)

  append_claims-le :
      (total : ℕ) (p : ClaimParams f) (claims : Claims f)
      → length claims.1 ≤ total
      → length (append_claims f total p claims).1 ≤ total
  append_claims-le total p (nodes, jobs) h =
      elim (Bool-cases (p.queue_limit == 0 || leb total (length jobs))) [
        | inl stop ↦ unfold append_claims in rw stop h
        | inr more ↦
            unfold append_claims in
            rw more (
              omega (
                arith,
                take_rows-le p
                    (select_due f p (min p.queue_limit (total - length jobs))
                      (p.meanwhile "" nodes))
                    (p.meanwhile "" nodes) jobs,
                select_due-le p (min p.queue_limit (total - length jobs)) (p.meanwhile "" nodes),
              ))
      ]

  module _ (t : Tick f) (capacity : ℕ) where
    guaranteed-le :
        (queues : List (LifecycleState × String)) (s : Claims f × QueueDebt f)
        → length s.0.1 ≤ capacity
        → length (guaranteed f t capacity queues s).0.1 ≤ capacity
    unfolding guaranteed claim_round
    guaranteed-le [] s h = h
    guaranteed-le (queue ∷ queues) s h = guaranteed-le queues _ (append_claims-le capacity _ s.0 h)

    overflow-le :
        (queues : List (LifecycleState × String)) (s : Claims f × QueueDebt f)
        → length s.0.1 ≤ capacity
        → length (overflow f t capacity queues s).0.1 ≤ capacity
    unfolding overflow claim_round
    overflow-le [] s h = h
    overflow-le (queue ∷ queues) s h = elim (Bool-cases (length s.0.1 == capacity)) [
      | inl full ↦ rw full h
      | inr more ↦ rw more (overflow-le queues _ (append_claims-le capacity _ s.0 h))
    ]

  -- A tick claims at most its capacity, and at most one job where the capacity is 0, whatever other
  -- tasks do to the table meanwhile.
  pub claims_bounded :
      (t : Tick f) (nodes : List (Node f)) (debt : Option (QueueDebt f))
      → length (claim_due_with_pressure f t nodes debt).jobs ≤ max t.capacity 1
  unfolding claim_due_with_pressure
  claims_bounded t nodes debt =
      overflow-le t (max t.capacity 1) queue_order _
        (guaranteed-le t (max t.capacity 1) queue_order _ (omega arith))
