-- ===== src/Examples/Claiming.antt =====
-- Batches of reports at concrete inputs.
use mathlib.Core.List.{Memᴰ}
use proxy_fleet.Common.{
  ◌*◌, ◌≤◌, String, true, false, ◌≡◌, ◌≢◌, refl, eq_iff, none, some, List, [], ◌∷◌, arith, length,
  filter, All,
}
use proxy_fleet.Domain.Failure.{tcp_timeout, is_success, inconclusive, is_invalid_config}
use proxy_fleet.Domain.Evidence.{dns_tcp}
use proxy_fleet.Parser.Json.{null}
use proxy_fleet.Probe.{ProbeEvent, ProbeReport}
use proxy_fleet.Scheduler.Incident.{has_failed, is_mass_failure, correlated_incident}
use proxy_fleet.Scheduler.Incident.Spread.{two_servers_incident}
use proxy_fleet.Scheduler.Incident.Narrow.{FromHere, one_origin_none}
use proxy_fleet.Examples.Sample.{milli, proxy_of}

abbrev failed_event : ProbeEvent milli
failed_event = record {
  stage = dns_tcp;
  class = tcp_timeout;
  fast_download = false;
  latency_ms = none;
  download_bps = none;
  bytes_transferred = none;
  duration_ms = none;
  endpoint = none;
  detail = null;
}

abbrev failed_at : String → String → String × ProbeReport milli
failed_at id address =
    (id, record { proxy = some (proxy_of "feed" id address); events = failed_event ∷ [] })

-- One source, two servers.
abbrev reports : List (String × ProbeReport milli)
reports =
    failed_at "a" "one.example" ∷ failed_at "b" "two.example" ∷ failed_at "c" "two.example" ∷ []

-- One source, one server.
abbrev one_server : List (String × ProbeReport milli)
one_server =
    failed_at "a" "one.example" ∷ failed_at "b" "one.example" ∷ failed_at "c" "one.example" ∷ []

failed : (id address : String) → has_failed milli (failed_at id address) ≡ true
unfolding has_failed is_success inconclusive is_invalid_config
failed id address = refl

all_failed : filter (has_failed milli) reports ≡ reports
all_failed = rw (failed "a" "one.example", failed "b" "two.example", failed "c" "two.example") refl

enough_failed : length reports * 70 ≤ length (filter (has_failed milli) reports) * 100
enough_failed = rw all_failed (omega arith)

apart : ◌≢◌ {A = String} "one.example" "two.example"
apart e = let same : false ≡ true = (eq_iff "one.example" "two.example").1 e in absurd (cc same)

two_servers_incident_example : is_mass_failure milli reports 70 ≡ true
two_servers_incident_example =
    two_servers_incident milli reports 70 (failed_at "a" "one.example")
      (failed_at "b" "two.example") (omega arith) enough_failed (Memᴰ.head refl)
      (Memᴰ.tail (Memᴰ.head refl)) (failed "a" "one.example") (failed "b" "two.example") apart

only_one_server : filter (has_failed milli) one_server ≡ one_server
only_one_server =
    rw (failed "a" "one.example", failed "b" "one.example", failed "c" "one.example") refl

All-here : All (FromHere milli "feed" "vless" "one.example") (filter (has_failed milli) one_server)
All-here = rw only_one_server ((refl, refl, refl), ((refl, refl, refl), ((refl, refl, refl), tt)))

one_origin_none_example : correlated_incident milli one_server 70 ≡ none
one_origin_none_example = one_origin_none milli "feed" "vless" "one.example" one_server 70 All-here
