-- ===== src/Examples/Probing.antt =====
-- Probes of two proxies in a world where every answer comes at once, and Xray starts on a batch
-- unless it holds the proxy with the protocol "bad".
use proxy_fleet.Common.{
  ℕ, ◌+◌, ◌*◌, ◌&&◌, String, Bool, true, false, ◌≡◌, refl, none, some, List, [], ◌∷◌, any, str_eq,
  if◌then◌else◌, Result, ok, err, arith, is_some, All,
}
use proxy_fleet.Common.State.{State}
use proxy_fleet.Parser.{ParsedProxy}
use proxy_fleet.Parser.Json.{num, null}
use proxy_fleet.Xray.Ports.{allocate_ports}
use proxy_fleet.Xray.Ports.Reserved.{IsAllocation, allocate-IsAllocation}
use proxy_fleet.Probe.Outside.{Outside, ProbeConfig, Timed}
use proxy_fleet.Probe.Dns.{Process, preflight}
use proxy_fleet.Probe.Dns.Cache.{IsSoundCache, preflight-completes}
use proxy_fleet.Probe.Relay.{test_through_xray}
use proxy_fleet.Probe.Relay.Shape.{IsReport, through-IsReport}
use proxy_fleet.Probe.Batch.{Survivor, Candidate, test_survivor_batch, test_batch, Reports}
use proxy_fleet.Probe.Batch.Complete.{IsComplete, test_survivor_batch-IsComplete}
use proxy_fleet.Probe.Batch.Isolated.{StartsUnless, IsIsolated, isolation}
use proxy_fleet.Probe.Batch.Reports.{IsReported, HasEvents, test_batch_lem}
use proxy_fleet.Examples.Sample.{milli}

abbrev is_bad : ParsedProxy → Bool
is_bad p = str_eq p.protocol "bad"

abbrev start_all : List ParsedProxy → List ℕ → State ℕ (Result String (Unit {0}))
start_all proxies ports w = (if any is_bad proxies then err "exited" else ok tt, w)

-- The world is the time.
abbrev world : Outside milli
world = record {
  W = ℕ;
  Ip = String;
  Client = ℕ;
  now = λ w. (w, w + 1);
  parse_ip = λ _. none;
  lookup_host = λ host port budget w. (Timed.done ((host, port) ∷ []), w);
  connect = λ a budget w. (Timed.done tt, w);
  bind = λ port w. (true, w);
  start_one = λ proxy port w. (ok tt, w);
  start_batch = start_all;
  stop = λ w. (tt, w);
  build_client = λ port timeout. ok port;
  send = λ client url budget w. (Timed.done (record { status = 204; body = [] }), w);
  from_secs_f64 = λ x. x * 1_000_000;
  json_f64 = num;
  completion = λ xs. xs;
  completion-count = λ test xs. refl;
}

abbrev config : ProbeConfig milli
config = record {
  test_start = 20000;
  test_end = 20010;
  test_url = "https://a.test";
  fallback_urls = "https://b.test" ∷ [];
  relay_timeout_ms = 2000;
  candidate_batch_timeout_seconds = 20;
  http_probe_max_endpoints = 2;
  http_probe_success_quorum = 1;
  http_probe_body_limit_bytes = 1024;
  download_enabled = true;
  download_url = "https://c.test";
  download_fallback_urls = [];
  timeout_seconds = 10;
  per_url_timeout_seconds = 1500;
  min_download_kbps = 100;
  target_download_kbps = 1000;
}

abbrev process : Process milli world
process = record { cache = []; reserved = 20001 ∷ []; world = 0 }

abbrev proxy : String → String → ParsedProxy
proxy protocol address = record {
  source = "feed";
  raw_config = address;
  protocol = protocol;
  address = address;
  port = 443;
  remark = "";
  normalized_config = null;
  config_hash = address;
}

abbrev survivor : String → String → Survivor
survivor id protocol = record {
  id = id;
  proxy = proxy protocol "h.test";
  deadline = 1_000_000;
  download_due = true;
}

abbrev survivors : List Survivor
survivors = survivor "n1" "vless" ∷ survivor "n2" "bad" ∷ []

allocate-IsAllocation_example :
    IsAllocation 20000 20010 2
      (20001 ∷ [])
      (allocate_ports world.bind 20000 20010 2 (20001 ∷ []) 0).1
      (allocate_ports world.bind 20000 20010 2 (20001 ∷ []) 0).0
allocate-IsAllocation_example =
    allocate-IsAllocation world.bind 20000 20010 2 (20001 ∷ []) 0 (omega arith)

empty_cache : IsSoundCache milli world []
empty_cache = record { bounded = omega arith; kept = tt }

preflight-completes_example :
    (is_some (preflight milli world (proxy "vless" "h.test") config 100 process).0 ≡ true)
    × IsSoundCache milli world
        (preflight milli world (proxy "vless" "h.test") config 100 process).1.cache
preflight-completes_example =
    preflight-completes milli world (proxy "vless" "h.test") config 100 process empty_cache

through-IsReport_example :
    IsReport milli
      (config.download_enabled && true)
      (test_through_xray milli world config 1_000_000 20000 true 0).0
through-IsReport_example = through-IsReport milli world config 1_000_000 20000 true 0

test_survivor_batch-IsComplete_example :
    IsComplete milli world config survivors
      (20001 ∷ [])
      (test_survivor_batch milli world config 2 survivors process)
test_survivor_batch-IsComplete_example =
    test_survivor_batch-IsComplete milli world config (omega arith) 2 survivors process
      (omega arith)

start_fails :
    (proxies : List ParsedProxy) (ports : List ℕ) (w : ℕ)
    → any is_bad proxies ≡ true
    → (text : String) × ((start_all proxies ports w).0 ≡ err text)
start_fails proxies ports w e = ("exited", rw e refl)

start_succeeds :
    (proxies : List ParsedProxy) (ports : List ℕ) (w : ℕ)
    → any is_bad proxies ≡ false
    → (start_all proxies ports w).0 ≡ ok tt
start_succeeds proxies ports w e = rw e refl

starts_unless : StartsUnless milli world is_bad
starts_unless = record { starts = start_succeeds; fails = start_fails }

isolation_example :
    IsIsolated milli world config is_bad 2 process.reserved survivors
      (test_survivor_batch milli world config 2 survivors process).0
isolation_example =
    isolation milli world config is_bad starts_unless (omega arith) 2 survivors process
      (omega arith)

abbrev parse : String → String → Result String ParsedProxy
parse raw source = if str_eq raw "junk" then err "not a link" else ok (proxy "vless" raw)

abbrev cohort : List Candidate
cohort =
    record { id = "n1"; raw = "h.test"; download_due = true }
    ∷ record { id = "n2"; raw = "junk"; download_due = false }
    ∷ []

test_batch_lem_example :
    (reports : Reports milli world config parse) × ((test_batch milli world config parse "feed"
        cohort process).0
      ≡ some reports)
    × All (IsReported milli world config parse reports) cohort
    × All (HasEvents milli world config parse) reports
test_batch_lem_example =
    test_batch_lem milli world config parse (omega arith) "feed" cohort process empty_cache
