-- ===== src/Examples/Serving.antt =====
-- The background loops and the runtime manager at concrete inputs.
use proxy_fleet.Common.{true, false, ◌≡◌, refl, List, [], ◌∷◌, arith, ok, ◌≤◌}
use proxy_fleet.App.Guard.{GuardConfig, Signal, answered, failed_batch, after, guard_of, after_lem}
use proxy_fleet.App.Concurrency.{
  Limits, Adaptive, Batch, Change, play, InLimits, AreOrdered, play-InLimits,
}
use proxy_fleet.Xray.Runtime.{fresh_manager, reserve, Serial, Serials}
use proxy_fleet.Xray.Runtime.Cap.{load, Serials-cap}
use proxy_fleet.Config.{Config, validate, checks, run_checks, valid, IsUsable, validate-IsUsable}
use proxy_fleet.Examples.Sample.{milli}

abbrev guard : GuardConfig
guard = record {
  failure_threshold = 2;
  recovery_threshold = 3;
  minimum_successful_targets = 2;
  require_http_success = true;
}

abbrev answers : List Signal
answers = answered true ∷ failed_batch ∷ answered false ∷ answered false ∷ answered true ∷ []

after_lem_example : after guard answers ≡ guard_of guard answers
after_lem_example = after_lem guard answers (omega arith) (omega arith)

abbrev limits : Limits
limits = record {
  xray_concurrency_min = 2;
  xray_concurrency_max = 20;
  download_concurrency_min = 1;
  download_concurrency_max = 4;
}

abbrev calm : Batch milli
calm = record {
  pressure = 100;
  results = true ∷ [];
  timeout_cluster = false;
  latency_spike = false;
  local_overload = false;
}

abbrev changes : List (Change milli)
changes = Change.batch calm ∷ Change.tick 950 false ∷ []

abbrev adaptive : Adaptive
adaptive = record { xray_concurrency = 10; download_concurrency = 4; last_concurrency_change = "" }

ordered : AreOrdered milli limits
ordered = record { xray = omega arith; download = omega arith }

within : InLimits milli limits adaptive
within = record {
  xray_min = omega arith;
  xray_max = omega arith;
  download_min = omega arith;
  download_max = omega arith;
}

play-InLimits_example : InLimits milli limits (play milli limits changes adaptive)
play-InLimits_example = play-InLimits milli limits changes adaptive ordered within

one_start : Serials 1 fresh_manager (reserve 1 "a" fresh_manager).1
one_start = Serials.then (Serial.reserves "a" fresh_manager) (Serials.stay _)

empty_load : load fresh_manager ≤ 1
unfolding load
empty_load = omega arith

Serials-cap_example : load (reserve 1 "a" fresh_manager).1 ≤ 1
Serials-cap_example = Serials-cap one_start empty_load

abbrev config : Config
config = record {
  subscription_urls = "https://feed.example" ∷ [];
  refresh_interval_seconds = 600;
  main = record { start = 10000; end = 10999 };
  test = record { start = 20000; end = 20999 };
  api_port = 8080;
  system_event_max_rows = 1000;
  candidate_cycle_limit = 10;
  limits = limits;
  max_active_runtimes = 50;
  http_probe_max_endpoints = 3;
  http_probe_success_quorum = 1;
  http_probe_body_limit_bytes = 65536;
  active_min_residence_seconds = 1800;
  download_timeout_seconds = 20;
  sample_size = 2;
}

accepted : validate config ≡ ok tt
unfolding validate checks run_checks valid
accepted = refl

validate-IsUsable_example : IsUsable milli config
validate-IsUsable_example = validate-IsUsable milli config accepted
