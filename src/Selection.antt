-- ===== src/Selection.antt =====
-- The choice of a node for a client: `best`, `feedback` and `score` of src/src/selection/mod.rs, and
-- `candidates_for_client` of src/src/storage/mod.rs.
pub mod Chosen
use proxy_fleet.Common.{
  ℕ, ◌+◌, ◌-◌, ◌*◌, ◌/◌, ◌%◌, String, Bool, true, false, not, ◌&&◌, ◌||◌, Option, none, some, List,
  [], ◌∷◌, filter, find, length, count_if, leb, ltb, min, max, map, unwrap_or, is_some, str_eq,
  if◌then◌else◌, Result, ok, err,
}
use proxy_fleet.Common.Float.{Float, fclamp, fmin}
use proxy_fleet.Domain.Evidence.{seconds, minutes, hours}
use proxy_fleet.Domain.Lifecycle.{LifecycleState}
use proxy_fleet.Store.Schema.{Node}
use proxy_fleet.Store.Clients.{
  Circuit, closed, opened, Assignment, Usage, ClientState, is_client, Clients, Penalties,
  record_assignment, apply_client_feedback,
}

-- `lifecycle_state = 'ACTIVE'`
unfoldable pub is_active : LifecycleState → Bool
is_active LifecycleState.active = true
is_active _ = false

unfoldable pub is_opened : Circuit → Bool
is_opened opened = true
is_opened closed = false

-- A time in the future.
abbrev pub later_than : ℕ → Option ℕ → Bool
later_than now none = false
later_than now (some t) = ltb now t

module _ (f : Float) where
  open f use {F, lt, add, sub, mul, div, ratio, of_ℕ}

  -- `CandidateForSelection`
  pub record Candidate : Type 0 where
    pub id : String
    pub main_port : Option ℕ
    pub relay_delay_ms : Option ℕ
    pub download_kbps : Option ℕ
    pub health_score : F
    pub publication_lease_until : Option ℕ
    pub active_assignments : ℕ
    pub recent_global_usage : ℕ
    pub recent_client_usage : ℕ
    pub client_success_ewma : Option F
    pub client_fail_streak : ℕ
    pub client_rate_limit_streak : ℕ
    pub circuit_open : Bool

  -- The `WHERE` clause.
  abbrev pub is_listed : ℕ → Node f → Bool
  is_listed now n =
      is_active n.lifecycle_state
      && is_some n.main_port
      && n.structurally_valid
      && later_than now n.publication_lease_until

  abbrev pub open_at : ℕ → Option (ClientState f) → Bool
  open_at now none = false
  open_at now (some row) = is_opened row.state && later_than now row.cooldown_until

  abbrev ewma_of : Option (ClientState f) → Option F
  ewma_of none = none
  ewma_of (some row) = some row.success_rate_ewma

  abbrev streak_of : (ClientState f → ℕ) → Option (ClientState f) → ℕ
  streak_of field none = 0
  streak_of field (some row) = field row

  -- `now` minus an interval; a time before the epoch counts as the epoch.
  abbrev used_since : ℕ → String → Usage → Bool
  used_since t node u = str_eq u.node_id node && leb t u.created_at

  -- The row of the `LEFT JOIN`; client and node are the key of `client_node_state`.
  unfoldable pub candidate_of :
      ℕ → ℕ → String → Clients f → Node f → Option (ClientState f) → Candidate
  candidate_of now ttl client db n row = record {
    id = n.id;
    main_port = n.main_port;
    relay_delay_ms = n.relay_delay_ms;
    download_kbps = n.download_kbps;
    health_score = n.health_score;
    publication_lease_until = n.publication_lease_until;
    active_assignments =
        count_if
          (λ (a : Assignment). str_eq a.node_id n.id && leb (now - seconds ttl) a.assigned_at)
          db.assignments;
    recent_global_usage = count_if (used_since (now - minutes 5) n.id) db.usages;
    recent_client_usage =
        count_if (λ (u : Usage). used_since (now - minutes 30) n.id u && str_eq u.client_id client)
          db.usages;
    client_success_ewma = ewma_of row;
    client_fail_streak = streak_of (λ (r : ClientState f). r.fail_streak) row;
    client_rate_limit_streak = streak_of (λ (r : ClientState f). r.rate_limit_streak) row;
    circuit_open = open_at now row;
  }

  unfoldable pub candidates_for_client : ℕ → ℕ → String → List (Node f) → Clients f → List Candidate
  unfolding candidate_of
  candidates_for_client now ttl client nodes db =
      filter (λ (c : Candidate). not c.circuit_open)
        (map
          (λ (n : Node f).
            candidate_of now ttl client db n (find (is_client f client n.id) db.rows))
          (filter (is_listed now) nodes))

  pub record Weights : Type 0 where
    pub latency : F
    pub download : F
    pub availability : F
    pub fairness : F
    pub client_history : F

  pub record SelectionConfig : Type 0 where
    pub sample_size : ℕ
    pub weights : Weights
    pub max_relay_delay_ms : ℕ
    pub target_download_kbps : ℕ
    pub assignment_ttl_seconds : ℕ

  -- `num_seconds().max(0)` from now to the end of the lease
  abbrev lease_seconds : ℕ → Option ℕ → Option F
  lease_seconds now none = none
  lease_seconds now (some until) = some (of_ℕ ((until - now) / seconds 1))

  abbrev freshness : Option F → F
  freshness none = of_ℕ 0
  freshness (some left) = div left (of_ℕ (hours 12 / seconds 1))

  unfoldable pub score : SelectionConfig → ℕ → Candidate → F
  score config now c =
      let unit = fclamp f (of_ℕ 0) (of_ℕ 1) in
      let delay = of_ℕ (unwrap_or c.relay_delay_ms config.max_relay_delay_ms) in
      let latency = unit (sub (of_ℕ 1) (div delay (of_ℕ (max config.max_relay_delay_ms 1)))) in
      let download =
        unit
          (div (of_ℕ (unwrap_or c.download_kbps 0)) (of_ℕ (max config.target_download_kbps 1))) in
      let fairness = div (of_ℕ 1) (
        add (add (add (of_ℕ 1) (of_ℕ c.active_assignments)) (of_ℕ c.recent_global_usage))
          (of_ℕ c.recent_client_usage)) in
      let history = unwrap_or c.client_success_ewma (ratio 1 2) in
      let lease_freshness = unit (freshness (lease_seconds now c.publication_lease_until)) in
      let availability =
        mul c.health_score (add (ratio 75 100) (mul (ratio 25 100) lease_freshness)) in
      let penalty =
        fmin f
          (add (mul (of_ℕ c.client_fail_streak) (ratio 15 100))
            (mul (of_ℕ c.client_rate_limit_streak) (ratio 25 100)))
          (ratio 5 10) in
      let w = config.weights in
      sub
        (add
          (add
            (add (add (mul w.latency latency) (mul w.download download))
              (mul w.availability availability))
            (mul w.fairness fairness))
          (mul w.client_history history))
        penalty

  -- `max_by`: the last of the greatest. `below` is `total_cmp(..) == Less`.
  unfoldable pub max_by : (F → F → Bool) → (Candidate → F) → Candidate → List Candidate → Candidate
  max_by below value best [] = best
  max_by below value best (c ∷ rest) =
      max_by below value (if below (value c) (value best) then best else c) rest

  pub record BestDecision : Type 0 where
    pub node_id : String
    pub port : ℕ
    pub relay_delay_ms : Option ℕ
    pub expires_in_seconds : ℕ

  -- A selection that fails, or panics where the sample is empty.
  pub data Failure : Type 0 where
    no_port : Failure
    panicked : Failure

  abbrev pub Decision : Type 0
  Decision = Result Failure (Option BestDecision × Clients f)

  -- The port as 16 bits.
  unfoldable pub assign : SelectionConfig → ℕ → String → Clients f → Candidate → Option ℕ → Decision
  unfolding record_assignment
  assign config now client db chosen none = err no_port
  assign config now client db chosen (some port) = ok (
    some (record {
      node_id = chosen.id;
      port = port % 65536;
      relay_delay_ms = chosen.relay_delay_ms;
      expires_in_seconds = config.assignment_ttl_seconds;
    }),
    record_assignment f now client chosen.id (port % 65536) db,
  )

  unfoldable pub choose :
      (F → F → Bool) → SelectionConfig → ℕ → String → Clients f → List Candidate → Decision
  unfolding max_by score assign
  choose below config now client db [] = err panicked
  choose below config now client db (c ∷ rest) =
      let chosen = max_by below (score config now) c rest in
      assign config now client db chosen chosen.main_port

  -- `draw n` stands for `choose_multiple` of `n`.
  unfoldable pub choose_from :
      (F → F → Bool)
      → (ℕ → List Candidate → List Candidate)
      → SelectionConfig
      → ℕ
      → String
      → Clients f
      → List Candidate
      → Decision
  unfolding choose
  choose_from below draw config now client db [] = ok (none, db)
  choose_from below draw config now client db (c ∷ rest) =
      let size = max (min config.sample_size (length (c ∷ rest))) 1 in
      choose below config now client db (draw size (c ∷ rest))

  -- The times of the query, of the scores and of the assignment are one.
  unfoldable pub best :
      (F → F → Bool)
      → (ℕ → List Candidate → List Candidate)
      → SelectionConfig
      → ℕ
      → String
      → List (Node f)
      → Clients f
      → Decision
  unfolding candidates_for_client choose_from
  best below draw config now client nodes db = choose_from below draw config now client db (
      filter (λ (c : Candidate). not c.circuit_open)
        (candidates_for_client now config.assignment_ttl_seconds client nodes db))
