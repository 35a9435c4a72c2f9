-- ===== src/Examples/Sample.antt =====
-- Concrete data: numbers in thousandths in the place of `f64`, and one node.
use proxy_fleet.Common.{
  ℕ, ◌+◌, ◌-◌, ◌*◌, ◌/◌, String, true, false, ◌≡◌, Option, none, some, [], ◌∷◌, ltb, leb, arith,
  ◌==◌, if◌then◌else◌,
}
use proxy_fleet.Common.Float.{Float}
use proxy_fleet.Domain.Failure.{FailureClass}
use proxy_fleet.Domain.Lifecycle.{LifecycleState}
use proxy_fleet.Domain.Evidence.{TestStage, seconds}
use proxy_fleet.Parser.{ParsedProxy}
use proxy_fleet.Parser.Json.{null}
use proxy_fleet.Store.Schema.{Node}
use proxy_fleet.Store.Events.{TestEventInput, Intervals}

pub milli_irrefl : (x : ℕ) → ltb x x ≡ false
milli_irrefl x = ground arith

pub milli_asymm : (x y : ℕ) → ltb x y ≡ true → ltb y x ≡ false
milli_asymm x y h = ground arith

pub milli_trans : (x y z : ℕ) → ltb x y ≡ true → ltb y z ≡ true → ltb x z ≡ true
milli_trans x y z h k = ground arith

pub milli_le : (x y : ℕ) → leb x y ≡ true → ltb y x ≡ false
milli_le x y h = ground arith

abbrev pub milli : Float
milli = record {
  F = ℕ;
  lt = ltb;
  le = leb;
  add = λ x y. x + y;
  sub = λ x y. x - y;
  mul = λ x y. (x * y) / 1000;
  div = λ x y. (x * 1000) / y;
  neg = λ x. x;
  powf = λ x y. if y == 0 then 1000 else 500;
  ratio = λ a b. (a * 1000) / b;
  of_ℕ = λ n. n * 1000;
  floor_usize = λ x. x / 1000;
  round = λ x. (x + 500) / 1000;
  lt_irrefl = milli_irrefl;
  lt_asymm = milli_asymm;
  lt_trans = milli_trans;
  le-lt_false = milli_le;
}

-- 1000 hours after the epoch, in nanoseconds.
abbrev pub noon : ℕ
noon = seconds 3_600_000

abbrev pub node_with : String → String → LifecycleState → Option LifecycleState → Node milli
node_with id hash state from = record {
  id = id;
  config_hash = hash;
  raw_config = "vless://";
  normalized_config = null;
  source_subs = "feed" ∷ [];
  status = state;
  lifecycle_state = state;
  structurally_valid = true;
  state_entered_at = none;
  testing_from_state = from;
  waiting_from_state = none;
  test_lease_until = none;
  main_port = none;
  relay_delay_ms = none;
  download_kbps = none;
  health_alpha = 1000;
  health_beta = 1000;
  health_score = 500;
  evidence_updated_at = none;
  publication_lease_until = none;
  publication_lease_kind = none;
  activated_at = none;
  last_success_at = none;
  last_real_download_at = none;
  last_failure_at = none;
  last_failure_class = none;
  last_failure_run_id = none;
  success_streak = 0;
  failure_streak = 0;
  independent_failure_count = 0;
  last_test_endpoint = none;
  last_test_at = none;
  next_test_at = none;
  exit_info = none;
  exit_info_fetched_at = none;
  metadata_lease_until = none;
  last_seen_generation = some 1;
  upstream_missing_generations = 1;
  retired_at = none;
  tombstone_until = none;
  created_at = 0;
  updated_at = 0;
}

abbrev pub event_of : String → TestStage → FailureClass → TestEventInput milli
event_of run stage class = record {
  proxy_id = "a";
  run_id = run;
  stage = stage;
  class = class;
  fast_download = false;
  latency_ms = none;
  download_bps = none;
  bytes_transferred = none;
  duration_ms = none;
  endpoint = none;
  system_pressure = none;
  incident_id = none;
  detail_json = null;
}

abbrev pub intervals : Intervals milli
intervals = record {
  active_relay_interval = seconds 300;
  active_download_interval = seconds 3600;
  active_min_residence = seconds 900;
}

-- The largest delay.
abbrev pub slowest : ℕ → ℕ
slowest c = c

abbrev pub proxy_of : String → String → String → ParsedProxy
proxy_of source hash address = record {
  source = source;
  raw_config = "vless://";
  protocol = "vless";
  address = address;
  port = 443;
  remark = "";
  normalized_config = null;
  config_hash = hash;
}
