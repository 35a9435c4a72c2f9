-- ===== src/Scheduler/Incident.antt =====
-- `correlated_incident` and `is_mass_failure` of src/src/scheduler/mod.rs: a batch in which most
-- proxies fail together is blamed on the local network.
mod Sets
pub mod Spread
pub mod Narrow
use proxy_fleet.Common.{
  ℕ, ◌+◌, String, Bool, true, false, not, ◌&&◌, ◌||◌, Option, none, some, List, [], ◌∷◌, length,
  map, any, all, filter, count_if, ltb, leb, is_some, if◌then◌else◌, saturating_mul_u64, str_eq,
}
use proxy_fleet.Common.Float.{Float}
use proxy_fleet.Domain.Failure.{
  FailureClass, dns_failure, endpoint_failure, is_success, is_invalid_config, inconclusive,
}
use proxy_fleet.Parser.{ParsedProxy}
use proxy_fleet.Probe.{ProbeEvent, ProbeReport}

-- A `BTreeSet<&str>`, of which the program asks only the size.
unfoldable pub contains : String → List String → Bool
contains x [] = false
contains x (y ∷ ys) = str_eq x y || contains x ys

unfoldable pub insert : String → List String → List String
insert x set = if contains x set then set else x ∷ set

-- The derived `PartialEq` at two classes.
unfoldable pub is_dns_failure : FailureClass → Bool
is_dns_failure dns_failure = true
is_dns_failure _ = false

unfoldable pub is_endpoint_failure : FailureClass → Bool
is_endpoint_failure endpoint_failure = true
is_endpoint_failure _ = false

-- The test of `inconclusive_only`.
abbrev uninformative : FailureClass → Bool
uninformative class = inconclusive class || is_invalid_config class

module _ (f : Float) where
  abbrev pub class_of : ProbeEvent f → FailureClass
  class_of event = event.class

  abbrev pub classes : ProbeReport f → List FailureClass
  classes report = map class_of report.events

  -- The closure that selects the failed reports.
  unfoldable pub has_failed : String × ProbeReport f → Bool
  has_failed (_, report) =
      not (any is_success (classes report))
      && not (all uninformative (classes report))
      && not (any is_invalid_config (classes report))
      && ltb 0 (length report.events)

  -- The variables of the loop over the failed reports.
  pub record Tally : Type 0 where
    pub sources : List String
    pub protocols : List String
    pub servers : List String
    pub dns_failures : ℕ
    pub endpoint_failures : ℕ

  abbrev pub empty_tally : Tally
  empty_tally = record {
    sources = [];
    protocols = [];
    servers = [];
    dns_failures = 0;
    endpoint_failures = 0;
  }

  -- A report without a parsed proxy counts by its node's id alone.
  unfoldable pub add_origin : String → Option ParsedProxy → Tally → Tally
  add_origin node_id (some proxy) t = record t {
    sources = insert proxy.source t.sources;
    protocols = insert proxy.protocol t.protocols;
    servers = insert proxy.address t.servers;
  }
  add_origin node_id none t = record t { servers = insert node_id t.servers }

  unfoldable pub observe : String × ProbeReport f → Tally → Tally
  unfolding add_origin
  observe (node_id, report) t =
      let t' = add_origin node_id report.proxy t in
      record t' {
        dns_failures = t'.dns_failures + count_if is_dns_failure (classes report);
        endpoint_failures = t'.endpoint_failures + count_if is_endpoint_failure (classes report);
      }

  unfoldable pub tally_from : Tally → List (String × ProbeReport f) → Tally
  tally_from t [] = t
  tally_from t (r ∷ failed) = tally_from (observe r t) failed

  abbrev pub tally : List (String × ProbeReport f) → Tally
  tally = tally_from empty_tally

  abbrev pub independent : Tally → Bool
  independent t = leb 2 (length t.sources) || leb 2 (length t.protocols) || leb 2 (length t.servers)

  unfoldable pub cause : Tally → ℕ → Option String
  cause t failed =
      if not (independent t)
      then none
      else if leb failed (saturating_mul_u64 t.dns_failures 2)
      then some "dns_failure_cluster"
      else if leb failed (saturating_mul_u64 t.endpoint_failures 2)
      then some "endpoint_failure_cluster"
      else some "cross_source_failure_cluster"

  unfoldable pub correlated_incident : List (String × ProbeReport f) → ℕ → Option String
  unfolding cause
  correlated_incident reports threshold_percent =
      let failed = filter has_failed reports in
      if ltb (length reports) 3
      then none
      else if ltb (saturating_mul_u64 (length failed) 100)
          (saturating_mul_u64 (length reports) threshold_percent)
      then none
      else cause (tally failed) (length failed)

  unfoldable pub is_mass_failure : List (String × ProbeReport f) → ℕ → Bool
  is_mass_failure reports threshold_percent =
      is_some (correlated_incident reports threshold_percent)
