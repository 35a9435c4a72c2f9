-- ===== src/Scheduler/Incident/Spread.antt =====
-- Failures that touch two servers, in `correlated_incident` of src/src/scheduler/mod.rs.
use proxy_fleet.Common.{
  ℕ, ◌*◌, ◌≤◌, ◌≡◌, ◌≢◌, inl, inr, refl, String, true, Option, none, some, List, [], ◌∷◌, length,
  filter, arith, eq_iff, saturating_mul_u64, Bool-cases, is_some,
}
use mathlib.Core.List.{Memᴰ}
use proxy_fleet.Scheduler.Incident.Sets.{contains-insert, contains-insert_mono, two_members}
use proxy_fleet.Common.Float.{Float}
use proxy_fleet.Parser.{ParsedProxy}
use proxy_fleet.Probe.{ProbeReport}
use proxy_fleet.Scheduler.Incident.{
  contains, insert, has_failed, Tally, tally, add_origin, observe, tally_from, independent, cause,
  correlated_incident, is_mass_failure, empty_tally,
}

module _ (f : Float) where
  -- What the loop counts as the server of a report.
  abbrev pub server_or : String → Option ParsedProxy → String
  server_or node_id none = node_id
  server_or node_id (some proxy) = proxy.address

  abbrev pub server_of : String × ProbeReport f → String
  server_of (node_id, report) = server_or node_id report.proxy

  servers-add_origin :
      (node_id : String) (proxy : Option ParsedProxy) (t : Tally f)
      → (add_origin f node_id proxy t).servers ≡ insert (server_or node_id proxy) t.servers
  unfolding add_origin
  servers-add_origin node_id none t = refl
  servers-add_origin node_id (some p) t = refl

  servers-observe :
      (r : String × ProbeReport f) (t : Tally f)
      → (observe f r t).servers ≡ insert (server_of r) t.servers
  unfolding observe
  servers-observe (node_id, report) t = servers-add_origin node_id report.proxy t

  servers_grow :
      (x : String) (t : Tally f) (failed : List (String × ProbeReport f))
      → contains x t.servers ≡ true
      → contains x (tally_from f t failed).servers ≡ true
  unfolding tally_from
  servers_grow x t [] h = h
  servers_grow x t (r ∷ failed) h =
      servers_grow x (observe f r t) failed
        (rw servers-observe (contains-insert_mono x (server_of r) t.servers h))

  server_counted :
      {r : String × ProbeReport f} (t : Tally f) {failed : List (String × ProbeReport f)}
      → Memᴰ r failed
      → contains (server_of r) (tally_from f t failed).servers ≡ true
  unfolding tally_from
  server_counted {r} t (Memᴰ.head {x = x} {xs = xs} e) =
      servers_grow (server_of r) (observe f x t) xs
        (rw (servers-observe, contains-insert, e, (eq_iff (server_of x) (server_of x)).1 refl))
  server_counted t (Memᴰ.tail {x = x} m) = server_counted (observe f x t) m

  failed_member :
      {r : String × ProbeReport f} {reports : List (String × ProbeReport f)}
      → Memᴰ r reports
      → has_failed f r ≡ true
      → Memᴰ r (filter (has_failed f) reports)
  failed_member {r} (Memᴰ.head {x = x} {xs = xs} e) h = rw (rw e at h) (Memᴰ.head e)
  failed_member (Memᴰ.tail {x = x} {xs = xs} m) h = elim (Bool-cases (has_failed f x)) [
    | inl yes_x ↦ rw yes_x (Memᴰ.tail (failed_member m h))
    | inr no_x ↦ rw no_x (failed_member m h)
  ]

  independent_iff : (t : Tally f) → 2 ≤ length t.servers → independent f t ≡ true
  independent_iff t h = ground arith

  is_some-cause : (t : Tally f) (n : ℕ) → independent f t ≡ true → is_some (cause f t n) ≡ true
  unfolding cause
  is_some-cause t n h = ground arith

  saturating_mono : (a b c d : ℕ) → a * b ≤ c * d → saturating_mul_u64 a b ≤ saturating_mul_u64 c d
  saturating_mono a b c d h = ground arith

  incident_of_independent :
      (reports : List (String × ProbeReport f)) (threshold_percent : ℕ)
      → 3 ≤ length reports
      → length reports * threshold_percent ≤ length (filter (has_failed f) reports) * 100
      → independent f (tally f (filter (has_failed f) reports)) ≡ true
      → is_mass_failure f reports threshold_percent ≡ true
  unfolding is_mass_failure correlated_incident
  incident_of_independent reports threshold_percent n enough h =
      incident (is_some-cause (tally f failed) (length failed) h)
        (saturating_mono (length reports) threshold_percent (length failed) 100 enough)
    where
      failed : List (String × ProbeReport f)
      failed = filter (has_failed f) reports

      incident :
          is_some (cause f (tally f failed) (length failed)) ≡ true
          → saturating_mul_u64 (length reports) threshold_percent
            ≤ saturating_mul_u64 (length failed) 100
          → is_some (correlated_incident f reports threshold_percent) ≡ true
      incident c e = ground arith

  -- A batch of at least three reports, of which `threshold_percent` or more have failed, is a mass
  -- failure as soon as two of the failed reports are about different servers.
  pub two_servers_incident :
      (reports : List (String × ProbeReport f)) (threshold_percent : ℕ)
      (r s : String × ProbeReport f)
      → 3 ≤ length reports
      → length reports * threshold_percent ≤ length (filter (has_failed f) reports) * 100
      → Memᴰ r reports
      → Memᴰ s reports
      → has_failed f r ≡ true
      → has_failed f s ≡ true
      → server_of r ≢ server_of s
      → is_mass_failure f reports threshold_percent ≡ true
  two_servers_incident reports threshold_percent r s n enough mr ms fr fs ne =
      incident_of_independent reports threshold_percent n enough (
        independent_iff (tally f (filter (has_failed f) reports)) (
          two_members (server_of r) (server_of s) _ ne
            (server_counted (empty_tally f) (failed_member mr fr))
            (server_counted (empty_tally f) (failed_member ms fs))))
