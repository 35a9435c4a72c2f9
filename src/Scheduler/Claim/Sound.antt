-- ===== src/Scheduler/Claim/Sound.antt =====
-- What the statements of a tick do to the well-formedness of the table of nodes.
use proxy_fleet.Common.{
  ℕ, String, Bool, true, ◌≡◌, ◌<◌, refl, Option, none, some, List, [], ◌∷◌, ◌&&◌, ◌||◌, length,
  filter, ◌==◌, leb, max, if◌then◌else◌, Bool-cases, inl, inr, arith, All, All-map, All-zip,
  All-of_found, Distinct-found, find, All-filter, All-append, All-take, All-sort_by,
  All-update_where, Distinct, Distinct-update_where, unwrap_or,
}
use proxy_fleet.Common.Float.{Float}
use proxy_fleet.Domain.Lifecycle.{
  LifecycleState, candidate, testing, active, probation, dormant, waiting_for_port, eq_state,
}
use proxy_fleet.Store.Schema.{Node, has_id}
use proxy_fleet.Store.Invariant.{is_queue, from_queue, IsSound, IsFleet, id_of, hash_of}
use proxy_fleet.Scheduler.Debt.{QueueDebt}
use proxy_fleet.Scheduler.Claim.{
  Claims, ClaimParams, TestJob, Tick, state_is, is_due, in_queue, waits_for_queue, goes_before,
  select_due, put_under_test, may_take, claim_row, take_rows, append_claims, claim_round,
  guaranteed, overflow, queue_order, claim_due_with_pressure,
}

-- What a selected row must be for its claim to be lawful, as a test on its columns.
abbrev may_test : Bool → LifecycleState → Option LifecycleState → Bool
may_test valid s waiting =
    valid && (is_queue s || (eq_state s waiting_for_port && from_queue waiting))

origin_is_queue :
    (valid : Bool) (s : LifecycleState) (waiting : Option LifecycleState)
    → may_test valid s waiting ≡ true
    → from_queue
        (if eq_state s waiting_for_port then some (unwrap_or waiting candidate) else some s)
      ≡ true
origin_is_queue valid s none h = ground arith
origin_is_queue valid s (some w) h = ground arith

may_test-valid :
    (valid : Bool) (s : LifecycleState) (waiting : Option LifecycleState)
    → may_test valid s waiting ≡ true
    → valid ≡ true
may_test-valid valid s waiting h = ground arith

queued_may_test :
    (valid idle free : Bool) (s q : LifecycleState) (waiting : Option LifecycleState)
    → is_queue q ≡ true
    → eq_state s q && (valid && idle && free) ≡ true
    → may_test valid s waiting ≡ true
queued_may_test valid idle free s candidate waiting h e = ground arith
queued_may_test valid idle free s testing waiting h e = ground arith
queued_may_test valid idle free s active waiting h e = ground arith
queued_may_test valid idle free s probation waiting h e = ground arith
queued_may_test valid idle free s dormant waiting h e = ground arith
queued_may_test valid idle free s _ waiting h e = absurd (cc h)

waiting_may_test :
    (valid idle free : Bool) (s q : LifecycleState) (waiting : Option LifecycleState)
    → is_queue q ≡ true
    → eq_state s waiting_for_port && state_is q waiting && (valid && idle && free) ≡ true
    → may_test valid s waiting ≡ true
waiting_may_test valid idle free s q none h e = ground arith
waiting_may_test valid idle free s q (some w) h e = ground arith

module _ (f : Float) where
  abbrev claimable : Node f → Bool
  claimable n = may_test n.structurally_valid n.lifecycle_state n.waiting_from_state

  abbrev Quiet : (String → List (Node f) → List (Node f)) → Type 0
  Quiet meanwhile = (key : String) (nodes : List (Node f)) → meanwhile key nodes ≡ nodes

  put_under_test-IsSound :
      (p : ClaimParams f) (n : Node f) → claimable n ≡ true → IsSound f (put_under_test f p n)
  unfolding put_under_test
  put_under_test-IsSound p n h = record {
    status_agrees = refl;
    invalid_iff =
        let valid : n.structurally_valid ≡ true =
          may_test-valid n.structurally_valid n.lifecycle_state n.waiting_from_state h in
        (λ e. absurd (cc (e, valid)), λ e. absurd (cc e));
    testing_origin =
        λ _. origin_is_queue n.structurally_valid n.lifecycle_state n.waiting_from_state h;
  }

  in_queue-claimable :
      (p : ClaimParams f) (n : Node f)
      → is_queue p.state ≡ true
      → in_queue f p n ≡ true
      → claimable n ≡ true
  unfolding in_queue is_due
  in_queue-claimable p n q h =
      queued_may_test n.structurally_valid _ _ n.lifecycle_state p.state n.waiting_from_state q h

  waits-claimable :
      (p : ClaimParams f) (n : Node f)
      → is_queue p.state ≡ true
      → waits_for_queue f p n ≡ true
      → claimable n ≡ true
  unfolding waits_for_queue is_due
  waits-claimable p n q h =
      waiting_may_test n.structurally_valid _ _ n.lifecycle_state p.state n.waiting_from_state q h

  -- A row that a claim of the key may take is claimable.
  abbrev pub Lawful : ClaimParams f → List (Node f) → String → Type 0
  Lawful p nodes key = All (λ x. may_take f p key x ≡ true → claimable x ≡ true) nodes

  has_id_of_may_take :
      (p : ClaimParams f) (key : String) (x : Node f)
      → may_take f p key x ≡ true
      → has_id f key x ≡ true
  unfolding may_take
  has_id_of_may_take p key x h = ground arith

  -- A row that the tick has put under test is not free.
  not_free :
      (p : ClaimParams f) (key : String) (x : Node f)
      → 0 < p.lease
      → may_take f p key (put_under_test f p x) ≡ true
      → claimable (put_under_test f p x) ≡ true
  unfolding may_take put_under_test
  not_free p key x h e = ground arith

  module _ (p : ClaimParams f) (positive : 0 < p.lease) where
    found-Lawful :
        (x : Node f) (nodes : List (Node f))
        → Distinct (id_of f) nodes
        → find (has_id f x.id) nodes ≡ some x
        → claimable x ≡ true
        → Lawful p nodes x.id
    found-Lawful x nodes d e c =
        All-map _ nodes (λ y go t. go (has_id_of_may_take p x.id y t))
          (All-of_found (id_of f) (λ y. claimable y ≡ true) x.id x nodes d e c)

    select_due-Lawful :
        (limit : ℕ) (nodes : List (Node f))
        → is_queue p.state ≡ true
        → Distinct (id_of f) nodes
        → All (λ x. Lawful p nodes x.id) (select_due f p limit nodes)
    unfolding select_due
    select_due-Lawful limit nodes q d =
        let P = λ (x : Node f). Lawful p nodes x.id in
        let found = Distinct-found (id_of f) nodes d in
        All-take P limit _ (
          All-sort_by P (goes_before f p) _ (
            All-append P (filter (in_queue f p) nodes) (filter (waits_for_queue f p) nodes)
              (All-filter P (in_queue f p) nodes (
                All-map _ nodes (λ x e t. found-Lawful x nodes d e (in_queue-claimable p x q t))
                  found))
              (All-filter P (waits_for_queue f p) nodes (
                All-map _ nodes (λ x e t. found-Lawful x nodes d e (waits-claimable p x q t))
                  found))))

    put-Lawful :
        (key key' : String) (nodes : List (Node f))
        → Lawful p nodes key'
        → Lawful p (claim_row f p key nodes) key'
    unfolding claim_row
    put-Lawful key key' nodes h =
        All-update_where (λ x. may_take f p key' x ≡ true → claimable x ≡ true) (may_take f p key)
          (put_under_test f p) (λ x _ _. not_free p key' x positive) nodes h

    pub claim_row-IsFleet :
        (key : String) (nodes : List (Node f))
        → Lawful p nodes key
        → IsFleet f nodes
        → IsFleet f (claim_row f p key nodes)
    unfolding put_under_test claim_row
    claim_row-IsFleet key nodes lawful h = record {
      sound =
          All-map _ _ (λ x both. both.0)
            (All-update_where (λ x. IsSound f x × (may_take f p key x ≡ true → claimable x ≡ true))
              (may_take f p key) (put_under_test f p)
              (λ x e both. (put_under_test-IsSound p x (both.1 e), not_free p key x positive)) nodes
              (All-zip _ _ nodes h.sound lawful));
      ids = Distinct-update_where (id_of f) _ (put_under_test f p) nodes (λ _. refl) h.ids;
      hashes = Distinct-update_where (hash_of f) _ (put_under_test f p) nodes (λ _. refl) h.hashes;
    }

    take_rows-IsFleet :
        (rows nodes : List (Node f)) (jobs : List TestJob)
        → Quiet p.meanwhile
        → All (λ row. Lawful p nodes row.id) rows
        → IsFleet f nodes
        → IsFleet f (take_rows f p rows (nodes, jobs)).0
    unfolding take_rows
    take_rows-IsFleet [] nodes jobs quiet lawful h = h
    take_rows-IsFleet (row ∷ rows) nodes jobs quiet lawful h =
        let same = quiet row.id nodes in
        take_rows-IsFleet rows (claim_row f p row.id (p.meanwhile row.id nodes)) _ quiet
          (rw same (All-map _ rows (λ r l. put-Lawful row.id r.id nodes l) lawful.1))
          (rw same (claim_row-IsFleet row.id nodes lawful.0 h))

    append_claims-IsFleet :
        (total : ℕ) (claims : Claims f)
        → Quiet p.meanwhile
        → is_queue p.state ≡ true
        → IsFleet f claims.0
        → IsFleet f (append_claims f total p claims).0
    append_claims-IsFleet total (nodes, jobs) quiet q h =
        elim (Bool-cases (p.queue_limit == 0 || leb total (length jobs))) [
          | inl stop ↦ unfold append_claims in rw stop h
          | inr more ↦
              unfold append_claims in
              rw (more, quiet "" nodes)
                (take_rows-IsFleet _ nodes jobs quiet (select_due-Lawful _ nodes q h.ids) h)
        ]

  module _ (t : Tick f) (capacity : ℕ) (positive : 0 < t.lease) (quiet : Quiet t.meanwhile) where
    guaranteed-IsFleet :
        (queues : List (LifecycleState × String)) (s : Claims f × QueueDebt f)
        → All (λ queue. is_queue queue.0 ≡ true) queues
        → IsFleet f s.0.0
        → IsFleet f (guaranteed f t capacity queues s).0.0
    unfolding guaranteed claim_round
    guaranteed-IsFleet [] s q h = h
    guaranteed-IsFleet (queue ∷ queues) s q h =
        guaranteed-IsFleet queues _ q.1 (append_claims-IsFleet _ positive capacity s.0 quiet q.0 h)

    overflow-IsFleet :
        (queues : List (LifecycleState × String)) (s : Claims f × QueueDebt f)
        → All (λ queue. is_queue queue.0 ≡ true) queues
        → IsFleet f s.0.0
        → IsFleet f (overflow f t capacity queues s).0.0
    unfolding overflow claim_round
    overflow-IsFleet [] s q h = h
    overflow-IsFleet (queue ∷ queues) s q h = elim (Bool-cases (length s.0.1 == capacity)) [
      | inl full ↦ rw full h
      | inr more ↦ rw more (
          overflow-IsFleet queues _ q.1 (append_claims-IsFleet _ positive capacity s.0 quiet q.0 h))
    ]

  -- With a positive test lease, and where no other task changes the table meanwhile, a tick keeps the table of nodes well-formed: ids and hashes stay
  -- unique, and each row that it puts under test remembers the queue that it came from.
  pub claim_due-IsFleet :
      (t : Tick f) (nodes : List (Node f)) (debt : Option (QueueDebt f))
      → 0 < t.lease
      → Quiet t.meanwhile
      → IsFleet f nodes
      → IsFleet f (claim_due_with_pressure f t nodes debt).nodes
  unfolding claim_due_with_pressure
  claim_due-IsFleet t nodes debt positive quiet h =
      let queues : All (λ (queue : LifecycleState × String). is_queue queue.0 ≡ true) queue_order =
        (refl, (refl, (refl, (refl, tt)))) in
      overflow-IsFleet t (max t.capacity 1) positive quiet queue_order _ queues
        (guaranteed-IsFleet t (max t.capacity 1) positive quiet queue_order _ queues h)
