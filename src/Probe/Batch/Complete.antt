-- ===== src/Probe/Batch/Complete.antt =====
-- Which outcomes the test of a batch ends with.
use proxy_fleet.Common.{
  count_if, if◌then◌else◌, ℕ, zero, suc, ◌/◌, ◌≤◌, ◌<◌, String, Bool, ◌≡◌, refl, sym, ap, ◌∙◌, List,
  [], ◌∷◌, ◌++◌, map, length, take, drop, All, All-append, Result, ok, err, arith, ◌&&◌,
}
use proxy_fleet.Common.Counting.{
  map-take-drop, length-take-le, length-drop, map-append, count_if-append, count_if-map,
}
use proxy_fleet.Common.State.{State}
use proxy_fleet.Common.Float.{Float}
use proxy_fleet.Xray.Ports.{release}
use proxy_fleet.Xray.Ports.Reserved.{allocate-IsAllocation, IsAllocation}
use proxy_fleet.Probe.{ProbeEvent}
use proxy_fleet.Probe.Outside.{Outside, ProbeConfig}
use proxy_fleet.Probe.Dns.{Process, outside}
use proxy_fleet.Probe.Relay.{test_through_xray}
use proxy_fleet.Probe.Relay.Shape.{IsReport, through-IsReport}
use proxy_fleet.Probe.Batch.{
  Survivor, zip, Outcomes, reserve_ports, drop_ports, overloaded, not_started, test_each, on_start,
  on_ports, test_survivor_batch,
}

abbrev pub survivor_id : Survivor → String
survivor_id s = s.id

module _ (f : Float) (o : Outside f) (config : ProbeConfig f) where
  abbrev pub outcome_id : String × List (ProbeEvent f) → String
  outcome_id outcome = outcome.0

  abbrev pub Reported : String × List (ProbeEvent f) → Type 0
  Reported outcome = 0 < length outcome.1

  -- As many outcomes for each id as survivors have it, in some order, each of at least one event,
  -- and the reservations as they were.
  pub record IsComplete (survivors : List Survivor) (reserved : List ℕ)
      (r : Outcomes f o config × Process f o) : Type 0 where
    pub ids :
        (test : String → Bool)
        → count_if test (map outcome_id r.0) ≡ count_if test (map survivor_id survivors)
    pub reported : All Reported r.0
    pub returned : r.1.reserved ≡ reserved

  report-nonempty :
      (due : Bool) (events : List (ProbeEvent f)) → IsReport f due events → 0 < length events
  report-nonempty due [] h = absurd h
  report-nonempty due (e ∷ events) h = omega arith

  abbrev pub tested : Survivor × ℕ → Survivor
  tested pair = pair.0

  test_each-IsComplete :
      (pairs : List (Survivor × ℕ)) (p : Process f o)
      → IsComplete (map tested pairs) p.reserved (test_each f o config pairs p)
  unfolding test_each
  test_each-IsComplete [] p = record { ids = λ test. refl; reported = tt; returned = refl }
  test_each-IsComplete ((s, port) ∷ rest) p =
      let p' = (outside f o (test_through_xray f o config s.deadline port s.download_due) p).1 in
      let others = test_each-IsComplete rest p' in
      record {
        ids = λ test. ap (λ n. if test s.id then suc n else n) (others.ids test);
        reported = (
          report-nonempty (config.download_enabled && s.download_due) _
              (through-IsReport f o config s.deadline port s.download_due p.world),
          others.reported,
        );
        returned = others.returned;
      }

  map-tested :
      (survivors : List Survivor) (ports : List ℕ)
      → length ports ≡ length survivors
      → map tested (zip survivors ports) ≡ survivors
  map-tested [] ports h = refl
  map-tested (s ∷ rest) [] h = absurd (omega arith)
  map-tested (s ∷ rest) (port ∷ ports) h = ap (λ ss. s ∷ ss) (map-tested rest ports (omega arith))

  -- The order in which the tests end.
  pub completed_survivors :
      (survivors : List Survivor) (ports : List ℕ)
      → length ports ≡ length survivors
      → (test : Survivor → Bool)
      → count_if test (map tested (o.completion (zip survivors ports))) ≡ count_if test survivors
  completed_survivors survivors ports same test =
      count_if-map tested test (o.completion (zip survivors ports))
      ∙ o.completion-count (λ (pair : Survivor × ℕ). test pair.0) (zip survivors ports)
      ∙ sym (count_if-map tested test (zip survivors ports))
      ∙ ap (count_if test) (map-tested survivors ports same)

  completed :
      (survivors : List Survivor) (ports : List ℕ)
      → length ports ≡ length survivors
      → (test : String → Bool)
      → count_if test (map survivor_id (map tested (o.completion (zip survivors ports))))
        ≡ count_if test (map survivor_id survivors)
  completed survivors ports same test =
      count_if-map survivor_id test (map tested (o.completion (zip survivors ports)))
      ∙ completed_survivors survivors ports same (λ s. test s.id)
      ∙ sym (count_if-map survivor_id test survivors)

  overloaded-IsComplete :
      (text : String) (survivors : List Survivor) (p : Process f o)
      → IsComplete survivors p.reserved (map (overloaded f o config text) survivors, p)
  unfolding overloaded
  overloaded-IsComplete text survivors p = record {
    ids = λ test. ap (count_if test) (ids survivors);
    reported = reported survivors;
    returned = refl;
  }
    where
      ids :
          (survivors : List Survivor)
          → map outcome_id (map (overloaded f o config text) survivors) ≡ map survivor_id survivors
      ids [] = refl
      ids (s ∷ rest) = ap (λ ids. s.id ∷ ids) (ids rest)

      reported :
          (survivors : List Survivor) → All Reported (map (overloaded f o config text) survivors)
      reported [] = tt
      reported (s ∷ rest) = (omega arith, reported rest)

  -- The halves of a batch, one after the other.
  append-IsComplete :
      (n : ℕ) (survivors : List Survivor) (reserved : List ℕ)
      (left right : Outcomes f o config × Process f o)
      → IsComplete (take n survivors) reserved left
      → IsComplete (drop n survivors) left.1.reserved right
      → IsComplete survivors reserved (left.0 ++ right.0, right.1)
  append-IsComplete n survivors reserved left right h k = record {
    ids = λ test.
        ap (count_if test) (map-append outcome_id left.0 right.0)
        ∙ count_if-append test (map outcome_id left.0) (map outcome_id right.0)
        ∙ rw (h.ids test, k.ids test)
            (sym (
              count_if-append test (map survivor_id (take n survivors))
                (map survivor_id (drop n survivors))))
        ∙ ap (count_if test) (map-take-drop survivor_id n survivors);
    reported = All-append Reported left.0 right.0 h.reported k.reported;
    returned = k.returned ∙ h.returned;
  }

  -- A test of batches that are smaller than `fuel`.
  abbrev Tests : ℕ → (List Survivor → State (Process f o) (Outcomes f o config)) → Type 0
  Tests fuel again =
      (survivors : List Survivor) (p : Process f o)
      → length survivors ≤ fuel
      → IsComplete survivors p.reserved (again survivors p)

  on_start-IsComplete :
      (fuel : ℕ) (again : List Survivor → State (Process f o) (Outcomes f o config))
      (survivors : List Survivor) (ports reserved : List ℕ) (started : Result String (Unit {0}))
      (p : Process f o)
      → Tests fuel again
      → length survivors ≤ suc fuel
      → length ports ≡ length survivors
      → release ports p.reserved ≡ reserved
      → IsComplete survivors reserved (on_start f o config again survivors ports started p)
  unfolding on_start drop_ports not_started
  on_start-IsComplete fuel again survivors ports reserved (ok _) p go small same back =
      let h = test_each-IsComplete (o.completion (zip survivors ports)) p in
      record {
        ids = λ test. h.ids test ∙ completed survivors ports same test;
        reported = h.reported;
        returned = rw h.returned back;
      }
  on_start-IsComplete fuel again [] ports reserved (err text) p go small same back = record {
    ids = λ test. refl;
    reported = tt;
    returned = back;
  }
  on_start-IsComplete fuel again (s ∷ []) ports reserved (err text) p go small same back = record {
    ids = λ test. refl;
    reported = (omega arith, tt);
    returned = back;
  }
  on_start-IsComplete fuel again (s ∷ t ∷ rest) ports reserved (err text) p go small same back =
      let all : List Survivor = s ∷ t ∷ rest in
      let middle = length all / 2 in
      let p' : Process f o = record p { reserved = release ports p.reserved } in
      let left = again (take middle all) p' in
      let right = again (drop middle all) left.1 in
      append-IsComplete middle all reserved left right
        (rw (sym back) (go (take middle all) p' (omega (arith, length-take-le middle all))))
        (go (drop middle all) left.1 (omega (arith, length-drop middle all)))

  on_ports-IsComplete :
      (fuel : ℕ) (again : List Survivor → State (Process f o) (Outcomes f o config))
      (survivors : List Survivor) (reserved : List ℕ) (answer : Result String (List ℕ))
      (p : Process f o)
      → Tests fuel again
      → length survivors ≤ suc fuel
      → IsAllocation config.test_start config.test_end (length survivors) reserved p.reserved answer
      → IsComplete survivors reserved (on_ports f o config again survivors answer p)
  unfolding on_ports
  on_ports-IsComplete fuel again survivors reserved (err text) p go small h =
      rw (sym h) (overloaded-IsComplete text survivors p)
  on_ports-IsComplete fuel again survivors reserved (ok ports) p go small h =
      let started =
        outside f o (o.start_batch (map (λ (s : Survivor). s.proxy) survivors) ports) p in
      on_start-IsComplete fuel again survivors ports reserved started.0 started.1 go small h.0 h.4

  -- With as much fuel as there are proxies, a batch ends with one outcome for each proxy, in some
  -- order (as many for each id as proxies have it), each with an event at least, whatever the starts of Xray, the ports and the network
  -- answer; and every port that it reserved is given back. The range of test ports must not be empty.
  pub test_survivor_batch-IsComplete :
      config.test_start ≤ config.test_end
      → (fuel : ℕ) (survivors : List Survivor) (p : Process f o) → length survivors ≤ fuel
      → IsComplete survivors p.reserved (test_survivor_batch f o config fuel survivors p)
  unfolding test_survivor_batch reserve_ports
  test_survivor_batch-IsComplete order zero [] p small = record {
    ids = λ test. refl;
    reported = tt;
    returned = refl;
  }
  test_survivor_batch-IsComplete order zero (s ∷ rest) p small = absurd (omega arith)
  test_survivor_batch-IsComplete order (suc fuel) [] p small = record {
    ids = λ test. refl;
    reported = tt;
    returned = refl;
  }
  test_survivor_batch-IsComplete order (suc fuel) (s ∷ rest) p small =
      let answer = reserve_ports f o config (length (s ∷ rest)) p in
      on_ports-IsComplete fuel (test_survivor_batch f o config fuel) (s ∷ rest) p.reserved answer.0
        answer.1 (test_survivor_batch-IsComplete order fuel) small
        (allocate-IsAllocation o.bind config.test_start config.test_end (length (s ∷ rest))
          p.reserved p.world order)
