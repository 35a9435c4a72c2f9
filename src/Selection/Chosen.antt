-- ===== src/Selection/Chosen.antt =====
-- Which node a client is given.
use mathlib.Core.List.{Memᴰ}
use proxy_fleet.Common.{
  ℕ, ◌≤◌, ◌<◌, ◌%◌, String, Bool, true, false, not, ◌≡◌, refl, ap, ◌∙◌, ◌⊎◌, inl, inr, Option, none,
  some, List, [], ◌∷◌, filter, find, length, map, min, max, All, All-map, All-filter, ok,
  Bool-cases, arith, is_some,
}
use proxy_fleet.Common.Membership.{All-Mem, All-of_map}
use proxy_fleet.Common.Float.{Float}
use proxy_fleet.Domain.Lifecycle.{LifecycleState}
use proxy_fleet.Store.Schema.{Node}
use proxy_fleet.Store.Clients.{ClientState, is_client, Clients, record_assignment}
use proxy_fleet.Selection.{
  is_active, later_than, Candidate, is_listed, open_at, candidate_of, candidates_for_client,
  SelectionConfig, max_by, BestDecision, assign, choose, choose_from, best, score, Decision,
}

module _ (f : Float) where
  open f use {F}

  -- What a node must be to be given out: active, valid, leased and with a port.
  pub record IsServing (now : ℕ) (n : Node f) : Type 0 where
    pub active : n.lifecycle_state ≡ LifecycleState.active
    pub valid : n.structurally_valid ≡ true
    pub leased : (until : ℕ) × (n.publication_lease_until ≡ some until) × (now < until)
    pub ported : (port : ℕ) × (n.main_port ≡ some port)

  -- `choose_multiple`: as many items as asked for, all of them from the list.
  pub record IsSample (draw : ℕ → List (Candidate f) → List (Candidate f)) : Type 1 where
    pub count : (n : ℕ) (xs : List (Candidate f)) → n ≤ length xs → length (draw n xs) ≡ n
    pub members :
        (P : Candidate f → Type 0) (n : ℕ) (xs : List (Candidate f)) → All P xs → All P (draw n xs)

  active_lem : (s : LifecycleState) → is_active s ≡ true → s ≡ LifecycleState.active
  unfolding is_active
  active_lem s h = ground arith

  listed-IsServing : (now : ℕ) (n : Node f) → is_listed f now n ≡ true → IsServing now n
  listed-IsServing now n h = record {
    active = active_lem n.lifecycle_state (ground arith);
    valid = ground arith;
    leased = leased n.publication_lease_until (ground arith);
    ported = ported n.main_port (ground arith);
  }
    where
      leased :
          (o : Option ℕ) → later_than now o ≡ true → (until : ℕ) × (o ≡ some until) × (now < until)
      leased none e = absurd (cc e)
      leased (some until) e = (until, refl, ground arith)

      ported : (o : Option ℕ) → is_some o ≡ true → (port : ℕ) × (o ≡ some port)
      ported none e = absurd (cc e)
      ported (some port) e = (port, refl)

  max_by-All :
      (P : Candidate f → Type 0) (below : F → F → Bool) (value : Candidate f → F) (c : Candidate f)
      (xs : List (Candidate f))
      → P c
      → All P xs
      → P (max_by f below value c xs)
  unfolding max_by
  max_by-All P below value c [] p h = p
  max_by-All P below value c (x ∷ xs) p h = elim (Bool-cases (below (value x) (value c))) [
    | inl e ↦ rw (e, max_by) (max_by-All P below value c xs p h.1)
    | inr e ↦ rw (e, max_by) (max_by-All P below value x xs h.0 h.1)
  ]

  module _ (now ttl : ℕ) (client : String) (nodes : List (Node f)) (db : Clients f) where
    abbrev row_of : Node f → Option (ClientState f)
    row_of n = find (is_client f client n.id) db.rows

    -- A candidate made of a node of the table that serves, with the client's circuit closed.
    pub record IsEligible (c : Candidate f) : Type 0 where
      pub node : Node f
      pub present : Memᴰ node nodes
      pub serving : IsServing now node
      pub closed : open_at f now (row_of node) ≡ false
      pub made : c ≡ candidate_of f now ttl client db node (row_of node)

    abbrev make : Node f → Candidate f
    make n = candidate_of f now ttl client db n (row_of n)

    make-IsEligible :
        (n : Node f)
        → Memᴰ n nodes × IsServing now n
        → not (make n).circuit_open ≡ true
        → IsEligible (make n)
    unfolding candidate_of
    make-IsEligible n h e = record {
      node = n;
      present = h.0;
      serving = h.1;
      closed = ground arith;
      made = refl;
    }

    candidates-IsEligible : All IsEligible (candidates_for_client f now ttl client nodes db)
    unfolding candidates_for_client
    candidates-IsEligible =
        let listed : All (λ n. Memᴰ n nodes × IsServing now n) (filter (is_listed f now) nodes) =
          All-filter _ (is_listed f now) nodes
            (All-map _ nodes (λ n m e. (m, listed-IsServing now n e)) (All-Mem nodes)) in
        All-filter IsEligible _ (map make (filter (is_listed f now) nodes)) (
          All-of_map _ make (filter (is_listed f now) nodes)
            (All-map _ (filter (is_listed f now) nodes) make-IsEligible listed))

    -- What a decision gives the client, and how it is recorded.
    pub record IsGiven (decision : BestDecision f) (after : Clients f) : Type 0 where
      pub node : Node f
      pub present : Memᴰ node nodes
      pub serving : IsServing now node
      pub closed : open_at f now (row_of node) ≡ false
      pub named : decision.node_id ≡ node.id
      pub at_port : (port : ℕ) × (node.main_port ≡ some port) × (decision.port ≡ port % 65536)
      pub recorded : after ≡ record_assignment f now client node.id decision.port db

    abbrev Given : SelectionConfig f → Decision f → Type 0
    Given config r =
        (decision : BestDecision f) × (after : Clients f) × (r ≡ ok (some decision, after))
        × IsGiven decision after

    assign-Given :
        (config : SelectionConfig f) (c : Candidate f)
        → IsEligible c
        → Given config (assign f config now client db c c.main_port)
    unfolding assign candidate_of
    assign-Given config c h =
        let (port, e) = h.serving.ported in
        let there : c.main_port ≡ some port = ap (λ (c : Candidate f). c.main_port) h.made ∙ e in
        let id : c.id ≡ h.node.id = ap (λ (c : Candidate f). c.id) h.made in
        rw there (
          _,
          _,
          refl,
          record {
            node = h.node;
            present = h.present;
            serving = h.serving;
            closed = h.closed;
            named = id;
            at_port = (port, e, refl);
            recorded = rw id refl;
          },
        )

    module _ (below : F → F → Bool) (draw : ℕ → List (Candidate f) → List (Candidate f))
        (sample : IsSample draw) (config : SelectionConfig f) where
      choose-Given :
          (drawn : List (Candidate f))
          → 0 < length drawn
          → All IsEligible drawn
          → Given config (choose f below config now client db drawn)
      unfolding choose
      choose-Given [] n h = absurd (omega arith)
      choose-Given (c ∷ rest) n h =
          assign-Given config (max_by f below (score f config now) c rest)
            (max_by-All IsEligible below (score f config now) c rest h.0 h.1)

      choose_from-Given :
          (xs : List (Candidate f))
          → All IsEligible xs
          → ((xs ≡ []) × (choose_from f below draw config now client db xs ≡ ok (none, db)))
            ⊎ Given config (choose_from f below draw config now client db xs)
      unfolding choose_from
      choose_from-Given [] h = inl (refl, refl)
      choose_from-Given (c ∷ rest) h =
          let size = max (min config.sample_size (length (c ∷ rest))) 1 in
          let enough = sample.count size (c ∷ rest) (omega arith) in
          inr (
            choose-Given (draw size (c ∷ rest)) (omega (arith, enough))
              (sample.members IsEligible size (c ∷ rest) h))

  -- A selection never fails. Either no node can be given to the client and nothing is recorded, or
  -- the client gets a node of the table that is active, valid and under a lease that has not run
  -- out, with which the client's circuit is closed, at the port of its runtime; and the assignment
  -- of this node to the client is recorded. The sample is as large as asked for and drawn from the
  -- candidates.
  pub best_lem :
      (now : ℕ) (client : String) (nodes : List (Node f)) (db : Clients f) (below : F → F → Bool)
      (draw : ℕ → List (Candidate f) → List (Candidate f))
      → IsSample draw
      → (config : SelectionConfig f)
      → ((filter
              (λ (c : Candidate f). not c.circuit_open)
              (candidates_for_client f now config.assignment_ttl_seconds client nodes db)
            ≡ [])
          × (best f below draw config now client nodes db ≡ ok (none, db)))
        ⊎ ((decision : BestDecision f) × (after : Clients f) × (best f below draw config now client
                nodes db
              ≡ ok (some decision, after))
            × IsGiven now config.assignment_ttl_seconds client nodes db decision after)
  unfolding best
  best_lem now client nodes db below draw sample config =
      let ttl = config.assignment_ttl_seconds in
      let all = candidates_for_client f now ttl client nodes db in
      choose_from-Given now ttl client nodes db below draw sample config
        (filter (λ (c : Candidate f). not c.circuit_open) all)
        (All-filter (IsEligible now ttl client nodes db) _ all
          (All-map _ all (λ c h e. h) (candidates-IsEligible now ttl client nodes db)))
