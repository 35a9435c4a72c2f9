-- ===== src/Scheduler/Claim/Stuck.antt =====
-- Ticks and the rows that are under test.
use proxy_fleet.Common.{
  ℕ, String, true, false, ◌≡◌, refl, ◌∙◌, Option, some, List, [], ◌∷◌, ◌||◌, length, filter, find,
  ◌==◌, leb, max, Bool-cases, inl, inr, eq_iff, All, All-map, All-filter, All-append, All-take,
  All-sort_by, All-of_found, Distinct, Distinct-update_where, find-update_other,
}
use proxy_fleet.Common.Float.{Float}
use proxy_fleet.Domain.Lifecycle.{LifecycleState, testing, eq_state}
use proxy_fleet.Store.Schema.{Node, has_id}
use proxy_fleet.Store.Invariant.{id_of}
use proxy_fleet.Scheduler.Debt.{QueueDebt}
use proxy_fleet.Scheduler.Claim.{
  Claims, ClaimParams, TestJob, Tick, in_queue, waits_for_queue, goes_before, select_due,
  put_under_test, may_take, claim_row, take_rows, append_claims, claim_round, guaranteed, overflow,
  queue_order, claim_due_with_pressure,
}

module _ (f : Float) (k : String) (n : Node f) (under_test : n.lifecycle_state ≡ testing) where
  -- The row is in the table, and it is the only one with its id.
  abbrev Holds : List (Node f) → Type 0
  Holds nodes = Distinct (id_of f) nodes × (find (has_id f k) nodes ≡ some n)

  -- What other tasks do leaves the row alone, and its id to it.
  abbrev pub Spares : (String → List (Node f) → List (Node f)) → Type 0
  Spares meanwhile =
      (key : String) (nodes : List (Node f)) → Holds nodes → Holds (meanwhile key nodes)

  in_queue-other :
      (p : ClaimParams f) (x : Node f)
      → eq_state testing p.state ≡ false
      → (has_id f k x ≡ true → x.lifecycle_state ≡ testing)
      → in_queue f p x ≡ true
      → has_id f k x ≡ false
  unfolding in_queue
  in_queue-other p x other h e = elim (Bool-cases (has_id f k x)) [
    | inl here ↦ absurd (cc (rw (h here, other) at e))
    | inr away ↦ away
  ]

  waits_for_queue-other :
      (p : ClaimParams f) (x : Node f)
      → (has_id f k x ≡ true → x.lifecycle_state ≡ testing)
      → waits_for_queue f p x ≡ true
      → has_id f k x ≡ false
  unfolding waits_for_queue
  waits_for_queue-other p x h e = elim (Bool-cases (has_id f k x)) [
    | inl here ↦ absurd (cc (rw (h here) at e))
    | inr away ↦ away
  ]

  -- No query selects the row.
  select_due-other :
      (p : ClaimParams f) (limit : ℕ) (nodes : List (Node f))
      → eq_state testing p.state ≡ false
      → Holds nodes
      → All (λ x. has_id f k x ≡ false) (select_due f p limit nodes)
  unfolding select_due
  select_due-other p limit nodes other h =
      let P = λ (x : Node f). has_id f k x ≡ false in
      let only =
        All-of_found (id_of f) (λ x. x.lifecycle_state ≡ testing) k n nodes h.0 h.1 under_test in
      All-take P limit _ (
        All-sort_by P (goes_before f p) _ (
          All-append P (filter (in_queue f p) nodes) (filter (waits_for_queue f p) nodes)
            (All-filter P (in_queue f p) nodes
              (All-map _ nodes (λ x. in_queue-other p x other) only))
            (All-filter P (waits_for_queue f p) nodes
              (All-map _ nodes (λ x. waits_for_queue-other p x) only))))

  may_take-other :
      (p : ClaimParams f) (row x : Node f)
      → has_id f k row ≡ false
      → may_take f p row.id x ≡ true
      → has_id f k x ≡ false
  unfolding may_take
  may_take-other p row x away e = elim (Bool-cases (has_id f row.id x)) [
    | inl same ↦ rw ((eq_iff x.id row.id).0 same) away
    | inr other ↦ absurd (cc (rw other at e))
  ]

  put_under_test-id : (p : ClaimParams f) (x : Node f) → (put_under_test f p x).id ≡ x.id
  unfolding put_under_test
  put_under_test-id p x = refl

  take_rows-Holds :
      (p : ClaimParams f) (rows nodes : List (Node f)) (jobs : List TestJob)
      → Spares p.meanwhile
      → All (λ x. has_id f k x ≡ false) rows
      → Holds nodes
      → Holds (take_rows f p rows (nodes, jobs)).0
  unfolding take_rows claim_row
  take_rows-Holds p [] nodes jobs spares away h = h
  take_rows-Holds p (row ∷ rows) nodes jobs spares away h =
      let now = p.meanwhile row.id nodes in
      let h' = spares row.id nodes h in
      take_rows-Holds p rows _ _ spares away.1 (
        Distinct-update_where (id_of f) (may_take f p row.id) (put_under_test f p) now
            (put_under_test-id p) h'.0,
        find-update_other (id_of f) k (may_take f p row.id) (put_under_test f p) now
              (put_under_test-id p) (λ x. may_take-other p row x away.0)
            ∙ h'.1,
      )

  append_claims-Holds :
      (total : ℕ) (p : ClaimParams f) (claims : Claims f)
      → Spares p.meanwhile
      → eq_state testing p.state ≡ false
      → Holds claims.0
      → Holds (append_claims f total p claims).0
  append_claims-Holds total p (nodes, jobs) spares other h =
      elim (Bool-cases (p.queue_limit == 0 || leb total (length jobs))) [
        | inl stop ↦ unfold append_claims in rw stop h
        | inr more ↦
            unfold append_claims in
            let h' = spares "" nodes h in
            rw more (
              take_rows-Holds p _ (p.meanwhile "" nodes) jobs spares
                (select_due-other p _ (p.meanwhile "" nodes) other h') h')
      ]

  module _ (t : Tick f) (capacity : ℕ) (spares : Spares t.meanwhile) where
    guaranteed-Holds :
        (queues : List (LifecycleState × String)) (s : Claims f × QueueDebt f)
        → All (λ q. eq_state testing q.0 ≡ false) queues
        → Holds s.0.0
        → Holds (guaranteed f t capacity queues s).0.0
    unfolding guaranteed claim_round
    guaranteed-Holds [] s other h = h
    guaranteed-Holds (queue ∷ queues) s other h =
        guaranteed-Holds queues _ other.1 (append_claims-Holds capacity _ s.0 spares other.0 h)

    overflow-Holds :
        (queues : List (LifecycleState × String)) (s : Claims f × QueueDebt f)
        → All (λ q. eq_state testing q.0 ≡ false) queues
        → Holds s.0.0
        → Holds (overflow f t capacity queues s).0.0
    unfolding overflow claim_round
    overflow-Holds [] s other h = h
    overflow-Holds (queue ∷ queues) s other h = elim (Bool-cases (length s.0.1 == capacity)) [
      | inl full ↦ rw full h
      | inr more ↦
          rw more
            (overflow-Holds queues _ other.1 (append_claims-Holds capacity _ s.0 spares other.0 h))
    ]

  -- A tick leaves a row under test as it is, whatever the time of the tick is, also when the test
  -- lease of the row has run out. What other tasks do meanwhile must leave that row as it is.
  pub stuck_under_test :
      (t : Tick f) (nodes : List (Node f)) (debt : Option (QueueDebt f))
      → Spares t.meanwhile
      → Distinct (id_of f) nodes
      → find (has_id f k) nodes ≡ some n
      → find (has_id f k) (claim_due_with_pressure f t nodes debt).nodes ≡ some n
  unfolding claim_due_with_pressure
  stuck_under_test t nodes debt spares d e =
      let other : All (λ (q : LifecycleState × String). eq_state testing q.0 ≡ false) queue_order =
        (refl, (refl, (refl, (refl, tt)))) in
      (overflow-Holds t (max t.capacity 1) spares queue_order _ other
        (guaranteed-Holds t (max t.capacity 1) spares queue_order _ other (d, e))).1
