-- ===== src/Scheduler/Incident/Narrow.antt =====
-- Failures that share their source, protocol and server.
use proxy_fleet.Common.{
  ℕ, ◌≤◌, ◌≡◌, refl, inl, String, Option, none, some, List, [], ◌∷◌, length, filter, All, arith,
}
use proxy_fleet.Common.Float.{Float}
use proxy_fleet.Parser.{ParsedProxy}
use proxy_fleet.Probe.{ProbeReport}
use proxy_fleet.Scheduler.Incident.{
  has_failed, Tally, tally, empty_tally, add_origin, observe, tally_from, cause,
  correlated_incident,
}
use proxy_fleet.Scheduler.Incident.Sets.{IsAtMost, insert-IsAtMost}

module _ (f : Float) where
  -- The report is about a proxy of this source, protocol and server.
  abbrev pub ComesFrom : String → String → String → String → Option ParsedProxy → Type 0
  ComesFrom source protocol server node_id none = node_id ≡ server
  ComesFrom source protocol server node_id (some proxy) =
      (proxy.source ≡ source) × (proxy.protocol ≡ protocol) × (proxy.address ≡ server)

  record IsNarrow (source protocol server : String) (t : Tally f) : Type 0 where
    at_source : IsAtMost source t.sources
    at_protocol : IsAtMost protocol t.protocols
    at_server : IsAtMost server t.servers

  module _ (source protocol server : String) where
    abbrev pub FromHere : String × ProbeReport f → Type 0
    FromHere (node_id, report) = ComesFrom source protocol server node_id report.proxy

    add_origin-IsNarrow :
        (node_id : String) (proxy : Option ParsedProxy) (t : Tally f)
        → ComesFrom source protocol server node_id proxy
        → IsNarrow source protocol server t
        → IsNarrow source protocol server (add_origin f node_id proxy t)
    unfolding add_origin
    add_origin-IsNarrow node_id none t c h = record {
      at_source = h.at_source;
      at_protocol = h.at_protocol;
      at_server = insert-IsAtMost server node_id t.servers c h.at_server;
    }
    add_origin-IsNarrow node_id (some proxy) t c h = record {
      at_source = insert-IsAtMost source proxy.source t.sources c.0 h.at_source;
      at_protocol = insert-IsAtMost protocol proxy.protocol t.protocols c.1 h.at_protocol;
      at_server = insert-IsAtMost server proxy.address t.servers c.2 h.at_server;
    }

    observe-IsNarrow :
        (r : String × ProbeReport f) (t : Tally f)
        → FromHere r
        → IsNarrow source protocol server t
        → IsNarrow source protocol server (observe f r t)
    unfolding observe
    observe-IsNarrow (node_id, report) t c h =
        let n = add_origin-IsNarrow node_id report.proxy t c h in
        record { at_source = n.at_source; at_protocol = n.at_protocol; at_server = n.at_server }

    tally_from-IsNarrow :
        (t : Tally f) (failed : List (String × ProbeReport f))
        → All FromHere failed
        → IsNarrow source protocol server t
        → IsNarrow source protocol server (tally_from f t failed)
    unfolding tally_from
    tally_from-IsNarrow t [] a h = h
    tally_from-IsNarrow t (r ∷ failed) a h =
        tally_from-IsNarrow (observe f r t) failed a.1 (observe-IsNarrow r t a.0 h)

    length_of_IsAtMost : (a : String) (set : List String) → IsAtMost a set → length set ≤ 1
    length_of_IsAtMost a set h = ground arith

    cause-none : (t : Tally f) (n : ℕ) → IsNarrow source protocol server t → cause f t n ≡ none
    unfolding cause
    cause-none t n h = ground (
      arith,
      length_of_IsAtMost source t.sources h.at_source,
      length_of_IsAtMost protocol t.protocols h.at_protocol,
      length_of_IsAtMost server t.servers h.at_server,
    )

    -- Failures of one source, one protocol and one server are never an incident, however many
    -- there are and at any threshold.
    pub one_origin_none :
        (reports : List (String × ProbeReport f)) (threshold_percent : ℕ)
        → All FromHere (filter (has_failed f) reports)
        → correlated_incident f reports threshold_percent ≡ none
    unfolding correlated_incident
    one_origin_none reports threshold_percent a = ground (arith, quiet)
      where
        failed : List (String × ProbeReport f)
        failed = filter (has_failed f) reports

        quiet : cause f (tally f failed) (length failed) ≡ none
        quiet = cause-none (tally f failed) (length failed) (
            tally_from-IsNarrow (empty_tally f) failed a
              (record { at_source = inl refl; at_protocol = inl refl; at_server = inl refl }))
