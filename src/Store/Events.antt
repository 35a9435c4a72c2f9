-- ===== src/Store/Events.antt =====
-- `Store::apply_test_event`: one probe outcome is recorded, the evidence is added up afresh, and
-- the decision about the node is written back. One call is one transaction.
pub mod Invariant
pub mod Idempotent
use proxy_fleet.Common.{
  ℕ, ◌+◌, ◌-◌, ◌*◌, ◌/◌, String, Bool, true, false, not, ◌&&◌, ◌||◌, Option, none, some, List, [],
  ◌∷◌, find, any, filter, take, sort_by, update_where, foldl, ltb, leb, max, if◌then◌else◌, is_some,
  unwrap_or, or_else, Result, ok, err, str_eq,
}
use mathlib.Core.Option
use proxy_fleet.Common.Float.{Float, fmin}
use proxy_fleet.Domain.Failure.{FailureClass, inconclusive, is_success, is_invalid_config}
use proxy_fleet.Domain.Lifecycle.{LifecycleState, active, testing, eq_state}
use proxy_fleet.Domain.Evidence.{
  TestStage, EvidenceDelta, stage_str, is_download, seconds, hours, delta, decay,
}
use proxy_fleet.Health.{HealthInput, HealthDecision, decide}
use proxy_fleet.Parser.Json.{Value, bool, num, put}
use proxy_fleet.Store.Schema.{Node, TestEvent, Fleet, has_id}

module _ (f : Float) where
  open f use {F, add, div, of_ℕ, round}

  pub record TestEventInput : Type 0 where
    pub proxy_id : String
    pub run_id : String
    pub stage : TestStage
    pub class : FailureClass
    pub fast_download : Bool
    pub latency_ms : Option F
    pub download_bps : Option F
    pub bytes_transferred : Option ℕ
    pub duration_ms : Option ℕ
    pub endpoint : Option String
    pub system_pressure : Option F
    pub incident_id : Option String
    pub detail_json : Value

  pub record TestEventApplied : Type 0 where
    pub lifecycle_state : LifecycleState
    pub health_score : F
    pub publication_lease_until : Option ℕ
    pub next_test_at : ℕ
    pub inconclusive : Bool

  -- The three intervals of the configuration.
  pub record Intervals : Type 0 where
    pub active_relay_interval : ℕ
    pub active_download_interval : ℕ
    pub active_min_residence : ℕ

  -- A node under test is judged by the state from which it was claimed.
  unfoldable pub judged_state : Node f → LifecycleState
  judged_state row =
      if eq_state row.lifecycle_state testing
      then unwrap_or row.testing_from_state row.status
      else row.lifecycle_state

  -- The same run and stage of a proxy is one observation.
  abbrev pub same_observation : TestEventInput → TestEvent f → Bool
  same_observation event e =
      str_eq e.proxy_id event.proxy_id
      && str_eq e.run_id event.run_id
      && str_eq (stage_str e.stage) (stage_str event.stage)

  unfoldable pub already_applied : Fleet f → TestEventInput → Bool
  already_applied db event = any (same_observation event) db.events

  unfoldable pub event_result : FailureClass → String
  event_result class =
      if inconclusive class
      then "INCONCLUSIVE"
      else if is_success class
      then "SUCCESS"
      else "FAILURE"

  -- The row that is inserted.
  unfoldable pub observation : ℕ → TestEventInput → TestEvent f
  unfolding event_result
  observation now event =
      let contribution = delta f event.stage event.class event.fast_download in
      let half_life = contribution.half_life / 1_000_000_000 in
      record {
        proxy_id = event.proxy_id;
        run_id = event.run_id;
        occurred_at = now;
        stage = event.stage;
        result = event_result event.class;
        class = event.class;
        evidence_alpha = contribution.alpha;
        evidence_beta = contribution.beta;
        half_life_seconds = half_life;
        latency_ms = event.latency_ms;
        download_bps = event.download_bps;
        bytes_transferred = event.bytes_transferred;
        duration_ms = event.duration_ms;
        endpoint = event.endpoint;
        system_pressure = event.system_pressure;
        incident_id = event.incident_id;
        detail_json =
            put (put event.detail_json "half_life_seconds" (num half_life)) "fast_download"
              (bool event.fast_download);
      }

  -- At most 512 observations of the last 30 days, the latest first.
  unfoldable pub recent_evidence : ℕ → String → List (TestEvent f) → List (TestEvent f)
  recent_evidence now key events = take 512 (
      sort_by (λ a b. ltb (TestEvent.occurred_at b) (TestEvent.occurred_at a))
        (filter
          (λ e. str_eq (TestEvent.proxy_id e) key && leb now (TestEvent.occurred_at e + hours 720))
          events))

  unfoldable pub add_evidence : ℕ → F × F → TestEvent f → F × F
  add_evidence now (alpha, beta) row =
      let half_life = seconds (max row.half_life_seconds 1) in
      let elapsed = now - row.occurred_at in
      (
        add alpha (decay f row.evidence_alpha elapsed half_life),
        add beta (decay f row.evidence_beta elapsed half_life),
      )

  -- `MAX_EFFECTIVE_ALPHA` and `MAX_EFFECTIVE_BETA` bound what the evidence can add up to.
  unfoldable pub total_evidence : ℕ → String → List (TestEvent f) → F × F
  unfolding recent_evidence add_evidence
  total_evidence now key events =
      let (alpha, beta) =
        foldl (add_evidence now) (of_ℕ 1, of_ℕ 1) (recent_evidence now key events) in
      (fmin f alpha (of_ℕ 24), fmin f beta (of_ℕ 64))

  abbrev run_is : String → Option String → Bool
  run_is run none = false
  run_is run (some last) = str_eq last run

  -- A failure of a run that is not the run of the last failure.
  unfoldable pub is_fresh_failure : Node f → TestEventInput → Bool
  is_fresh_failure row event =
      not (inconclusive event.class)
      && not (is_success event.class)
      && not (run_is event.run_id row.last_failure_run_id)

  unfoldable pub health_input : ℕ → Intervals → Node f → F × F → TestEventInput → HealthInput f
  unfolding judged_state is_fresh_failure
  health_input now intervals row (alpha, beta) event = record {
    prior_lifecycle = judged_state row;
    prior_lease_until = row.publication_lease_until;
    activated_at = row.activated_at;
    alpha = alpha;
    beta = beta;
    failure_streak = row.failure_streak;
    independent_failures = row.independent_failure_count;
    new_independent_failure = is_fresh_failure row event;
    had_real_download = is_some row.last_real_download_at;
    stage = event.stage;
    class = event.class;
    fast_download = event.fast_download;
    now = now;
    active_relay_interval = intervals.active_relay_interval;
    active_download_interval = intervals.active_download_interval;
    active_min_residence = intervals.active_min_residence;
  }

  abbrev is_failure : FailureClass → Bool
  is_failure class = not (inconclusive class) && not (is_success class)

  -- The `SET` list of the `UPDATE nodes`.
  unfoldable pub write_decision :
      ℕ → F × F → TestEventInput → LifecycleState → HealthDecision f → Node f → Node f
  write_decision now (alpha, beta) event prior decision row = record row {
    status = decision.lifecycle;
    lifecycle_state = decision.lifecycle;
    testing_from_state = none;
    test_lease_until = none;
    state_entered_at = if eq_state decision.lifecycle prior then row.state_entered_at else some now;
    structurally_valid = if is_invalid_config event.class then false else row.structurally_valid;
    health_alpha = alpha;
    health_beta = beta;
    health_score = decision.score;
    evidence_updated_at = some now;
    publication_lease_until = decision.lease_until;
    publication_lease_kind =
        if is_some decision.lease_until
        then some (stage_str event.stage)
        else row.publication_lease_kind;
    activated_at =
        if eq_state decision.lifecycle active && not (eq_state prior active)
        then some now
        else row.activated_at;
    last_success_at = if is_success event.class then some now else row.last_success_at;
    last_real_download_at =
        if is_success event.class && is_download event.stage
        then some now
        else row.last_real_download_at;
    last_failure_at = if is_failure event.class then some now else row.last_failure_at;
    last_failure_class =
        if is_failure event.class then some event.class else row.last_failure_class;
    last_failure_run_id =
        if is_failure event.class then some event.run_id else row.last_failure_run_id;
    success_streak =
        if is_success event.class
        then row.success_streak + 1
        else if inconclusive event.class
        then row.success_streak
        else 0;
    failure_streak = decision.failure_streak;
    independent_failure_count = decision.independent_failures;
    next_test_at = some decision.next_test_at;
    last_test_at = some now;
    last_test_endpoint = or_else event.endpoint row.last_test_endpoint;
    relay_delay_ms = or_else (Option.map round event.latency_ms) row.relay_delay_ms;
    download_kbps =
        or_else (Option.map (λ bps. round (div bps (of_ℕ 1024))) event.download_bps)
          row.download_kbps;
    updated_at = now;
  }

  -- The answer to a repeated observation.
  abbrev repeated : ℕ → TestEventInput → Node f → TestEventApplied
  repeated now event row = record {
    lifecycle_state = judged_state row;
    health_score = row.health_score;
    publication_lease_until = row.publication_lease_until;
    next_test_at = unwrap_or row.next_test_at now;
    inconclusive = inconclusive event.class;
  }

  -- The transaction on the row that was found. `draw` is the random generator of the backoff.
  unfoldable pub apply_to :
      (ℕ → ℕ) → ℕ → Intervals → TestEventInput → Fleet f → Node f → TestEventApplied × Fleet f
  unfolding health_input write_decision total_evidence
  apply_to draw now intervals event db row =
      if already_applied db event
      then (repeated now event row, db)
      else let events = observation now event ∷ db.events in
        let evidence = total_evidence now event.proxy_id events in
        let decision = decide f draw (health_input now intervals row evidence event) in
        (
          record {
            lifecycle_state = decision.lifecycle;
            health_score = decision.score;
            publication_lease_until = decision.lease_until;
            next_test_at = decision.next_test_at;
            inconclusive = inconclusive event.class;
          },
          record {
            nodes =
                update_where (has_id f event.proxy_id)
                  (write_decision now evidence event (judged_state row) decision) db.nodes;
            events = events;
          },
        )

  unfoldable pub apply_found :
      (ℕ → ℕ)
      → ℕ
      → Intervals
      → TestEventInput
      → Fleet f
      → Option (Node f)
      → Result String (TestEventApplied × Fleet f)
  apply_found draw now intervals event db none = err "proxy not found"
  apply_found draw now intervals event db (some row) = ok (apply_to draw now intervals event db row)

  unfoldable pub apply_test_event :
      (ℕ → ℕ)
      → ℕ
      → Intervals
      → TestEventInput
      → Fleet f
      → Result String (TestEventApplied × Fleet f)
  unfolding apply_found
  apply_test_event draw now intervals event db =
      apply_found draw now intervals event db (find (has_id f event.proxy_id) db.nodes)
