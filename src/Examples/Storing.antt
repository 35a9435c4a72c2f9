-- ===== src/Examples/Storing.antt =====
-- The statements against the tables at concrete inputs.
use proxy_fleet.Common.{
  ℕ, ◌+◌, ◌≤◌, String, ◌≡◌, ◌≢◌, ◌⊎◌, refl, none, some, List, [], ◌∷◌, arith, ok, find,
}
use proxy_fleet.Domain.Failure.{success, tcp_timeout}
use proxy_fleet.Domain.Lifecycle.{candidate, testing, active, retired}
use proxy_fleet.Domain.Evidence.{dns_tcp, seconds, hours}
use proxy_fleet.Store.Schema.{Node, Fleet, has_id}
use proxy_fleet.Store.Invariant.{IsSound, IsFleet}
use proxy_fleet.Store.Events.{TestEventInput, TestEventApplied, apply_test_event}
use proxy_fleet.Store.Events.Idempotent.{SameObservation, repeat_is_noop}
use proxy_fleet.Store.Upkeep.{release_test_lease, revive_dormant}
use proxy_fleet.Store.Upkeep.Release.{origin, claim_release}
use proxy_fleet.Store.Upstream.Refresh.{Outcome, finish_refresh}
use proxy_fleet.Store.Upstream.Kept.{IsFresh}
use proxy_fleet.Store.Upstream.Retire.{MayRetire, IsCounted, finish_refresh_row}
use proxy_fleet.Store.Reach.{Step, Reaches, Reaches-IsFleet}
use proxy_fleet.Scheduler.Claim.{ClaimParams, Tick, may_take, claim_row, claim_due_with_pressure}
use proxy_fleet.Scheduler.Claim.Sound.{Lawful}
use proxy_fleet.Scheduler.Claim.Stuck.{stuck_under_test}
use proxy_fleet.Scheduler.Claim.Bounds.{claims_bounded}
use proxy_fleet.Scheduler.Claim.Credit.{credit_is_ignored}
use proxy_fleet.Common.{length, max}
use proxy_fleet.Parser.{ParsedProxy}
use proxy_fleet.Scheduler.Debt.{QueueDebt}
use proxy_fleet.Store.Clients.{
  Clients, ClientState, broken, Penalties, read_feedback, is_client, apply_client_feedback,
}
use proxy_fleet.Store.Clients.Cooldown.{Judged, feedback_circuit}
use proxy_fleet.Examples.Sample.{milli, noon, slowest, node_with, event_of, intervals, proxy_of}

abbrev row_a : Node milli
row_a = node_with "a" "hash a" candidate none

abbrev row_b : Node milli
row_b = node_with "b" "hash b" testing (some active)

abbrev nodes : List (Node milli)
nodes = row_a ∷ row_b ∷ []

abbrev db : Fleet milli
db = record { nodes = nodes; events = [] }

IsSound-a : IsSound milli row_a
IsSound-a = record {
  status_agrees = refl;
  invalid_iff = (λ e. absurd (cc e), λ e. absurd (cc e));
  testing_origin = λ e. absurd (cc e);
}

IsSound-b : IsSound milli row_b
IsSound-b = record {
  status_agrees = refl;
  invalid_iff = (λ e. absurd (cc e), λ e. absurd (cc e));
  testing_origin = λ e. refl;
}

nodes-IsFleet : IsFleet milli nodes
nodes-IsFleet = record {
  sound = (IsSound-a, (IsSound-b, tt));
  ids = ((refl, tt), (tt, tt));
  hashes = ((refl, tt), (tt, tt));
}

abbrev timeout : TestEventInput milli
timeout = event_of "run 1" dns_tcp tcp_timeout

-- The same run and stage, with another outcome and an hour later.
abbrev repeated : TestEventInput milli
repeated = event_of "run 1" dns_tcp success

same : SameObservation milli timeout repeated
same = record { same_proxy = refl; same_run = refl; same_stage = refl }

abbrev tick : Tick milli
tick = record {
  capacity = 2;
  now = noon;
  lease = seconds 60;
  active_download_interval = seconds 3600;
  pressure = 100;
  meanwhile = λ key nodes. nodes;
}

claims_bounded_example : length (claim_due_with_pressure milli tick nodes none).jobs ≤ max 2 1
claims_bounded_example = claims_bounded milli tick nodes none

stuck_under_test_example :
    find (has_id milli "b") (claim_due_with_pressure milli tick nodes none).nodes ≡ some row_b
stuck_under_test_example =
    stuck_under_test milli "b" row_b refl tick nodes none (λ key nodes h. h) nodes-IsFleet.ids refl

repeat_is_noop_example :
    (first second : TestEventApplied milli) × (db' : Fleet milli) × (apply_test_event milli slowest
        noon intervals timeout db
      ≡ ok (first, db'))
    × (apply_test_event milli slowest (noon + hours 1) intervals repeated db' ≡ ok (second, db'))
repeat_is_noop_example =
    repeat_is_noop milli slowest slowest noon (noon + hours 1) intervals intervals timeout repeated
      db row_a same refl

abbrev debt : QueueDebt milli
debt = record {
  candidate_credit = 0;
  probation_credit = 8000;
  dormant_credit = 0;
  active_credit = 0;
}

credit_is_ignored_example :
    ((claim_due_with_pressure milli tick nodes none).jobs
      ≡ (claim_due_with_pressure milli tick nodes (some debt)).jobs)
    × ((claim_due_with_pressure milli tick nodes none).nodes
        ≡ (claim_due_with_pressure milli tick nodes (some debt)).nodes)
credit_is_ignored_example = credit_is_ignored milli tick nodes none (some debt)

abbrev queue_params : ClaimParams milli
queue_params = record {
  state = candidate;
  queue_limit = 2;
  reason = "new";
  now = noon;
  lease = seconds 60;
  active_download_interval = seconds 3600;
  pressure = 100;
  meanwhile = λ key nodes. nodes;
}

claim_release_example :
    (m : Node milli) × (find
        (has_id milli "a")
        (release_test_lease milli noon "a" (claim_row milli queue_params "a" nodes))
      ≡ some m)
    × (m.lifecycle_state ≡ origin milli row_a)
    × (m.status ≡ origin milli row_a)
    × (m.test_lease_until ≡ none)
    × (m.testing_from_state ≡ none)
    × ((m.lifecycle_state ≢ testing) ⊎ (row_a.waiting_from_state ≡ some testing))
claim_release_example = claim_release milli queue_params noon row_a nodes refl refl refl

-- A complete refresh of one source, the second since `a` was seen.
abbrev outcome : Outcome milli
outcome = record {
  id = "run";
  generation = 2;
  source_count = 1;
  successful_sources = 1;
  parsed_count = 0;
}

finish_refresh_row_example :
    (m : Node milli) × (find
        (has_id milli "a")
        (finish_refresh milli noon 2 outcome (nodes, [])).1.0
      ≡ some m)
    × ((m.lifecycle_state ≡ candidate)
        ⊎ ((m.lifecycle_state ≡ retired) × MayRetire milli noon 2 outcome row_a))
    × IsCounted milli outcome row_a m
finish_refresh_row_example = finish_refresh_row milli noon 2 outcome (nodes, []) "a" row_a refl

abbrev batch : List (ParsedProxy × String)
batch =
    (proxy_of "feed" "hash a" "a.example", "c") ∷ (proxy_of "feed" "hash d" "d.example", "d") ∷ []

batch-IsFresh : IsFresh milli batch nodes
batch-IsFresh = record {
  unknown = ((refl, (refl, tt)), ((refl, (refl, tt)), tt));
  apart = ((refl, tt), (tt, tt));
}

a_is_Lawful : Lawful milli queue_params nodes "a"
unfolding may_take
a_is_Lawful = ((λ e. refl), ((λ e. e), tt))

-- A claim, and then the revival of the dormant nodes.
steps :
    Reaches milli
      (seconds 60)
      nodes
      (revive_dormant milli noon (claim_row milli queue_params "a" nodes)).1
steps =
    Reaches.then (Step.claim queue_params "a" nodes refl a_is_Lawful)
      (Reaches.then (Step.revive_all noon _) (Reaches.stay _))

Reaches-IsFleet_example :
    IsFleet milli (revive_dormant milli noon (claim_row milli queue_params "a" nodes)).1
Reaches-IsFleet_example = Reaches-IsFleet milli (omega arith) steps nodes-IsFleet

abbrev penalties : Penalties milli
penalties = record {
  broken_penalty = record { base_cooldown_seconds = 60; max_cooldown_seconds = 600 };
  rate_penalty = record { base_cooldown_seconds = 30; max_cooldown_seconds = 300 };
}

abbrev no_clients : Clients milli
no_clients = record { rows = []; assignments = []; usages = [] }

draws_below : (c : ℕ) → slowest c ≤ c
draws_below c = omega arith

reads_broken : read_feedback "broken" ≡ some broken
unfolding read_feedback
reads_broken = refl

feedback_circuit_example :
    (db' : Clients milli) × (apply_client_feedback milli slowest noon penalties "client" "a"
        "broken" nodes no_clients
      ≡ ok db')
    × (row : ClientState milli) × (find (is_client milli "client" "a") db'.rows ≡ some row)
    × Judged milli noon penalties broken row
feedback_circuit_example =
    feedback_circuit milli slowest draws_below noon penalties "client" "a" "broken" nodes no_clients
      broken refl reads_broken
