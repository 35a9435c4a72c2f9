-- ===== src/Probe/Batch/Isolated.antt =====
-- What a proxy that keeps Xray from starting does to its batch.
use mathlib.Core.Path.{subst}
use proxy_fleet.Common.{
  count_if, ltb, ap, ◌∙◌, ℕ, zero, suc, ◌/◌, ◌≤◌, String, Bool, true, false, ◌≡◌, refl, sym, ◌⊎◌,
  inl, inr, List, [], ◌∷◌, ◌++◌, map, any, length, take, drop, Result, ok, err, arith, Bool-cases,
}
use proxy_fleet.Common.State.{State}
use proxy_fleet.Common.Float.{Float}
use proxy_fleet.Parser.{ParsedProxy}
use proxy_fleet.Xray.Ports.{release}
use proxy_fleet.Xray.Ports.Reserved.{allocate-IsAllocation, IsAllocation}
use proxy_fleet.Probe.{ProbeEvent}
use proxy_fleet.Probe.Outside.{Outside, ProbeConfig}
use proxy_fleet.Probe.Dns.{Process, outside}
use proxy_fleet.Probe.Relay.{test_through_xray}
use proxy_fleet.Probe.Batch.{
  Survivor, zip, Outcomes, reserve_ports, drop_ports, overloaded, not_started, test_each, on_start,
  on_ports, test_survivor_batch,
}
use proxy_fleet.Probe.Batch.Complete.{tested, completed_survivors, test_survivor_batch-IsComplete}
use proxy_fleet.Common.Counting.{
  length-take-le, length-drop, count_if-append, any-count_if, any-map, take-drop,
}

-- Two lists of the same length, related item by item.
abbrev pub All2 {ℓ κ} : {A : Type ℓ} {B : Type κ} → (A → B → Type 0) → List A → List B → Type 0
All2 R [] [] = Unit
All2 R [] (y ∷ ys) = ⊥
All2 R (x ∷ xs) [] = ⊥
All2 R (x ∷ xs) (y ∷ ys) = R x y × All2 R xs ys

All2-append {ℓ κ} :
    {A : Type ℓ} {B : Type κ} (R : A → B → Type 0) (ws xs : List A) (ys zs : List B)
    → All2 R ws ys
    → All2 R xs zs
    → All2 R (ws ++ xs) (ys ++ zs)
All2-append R [] xs [] zs h k = k
All2-append R [] xs (y ∷ ys) zs h k = absurd h
All2-append R (w ∷ ws) xs [] zs h k = absurd h
All2-append R (w ∷ ws) xs (y ∷ ys) zs h k = (h.0, All2-append R ws xs ys zs h.1 k)

-- The same items, in any order.
abbrev pub IsReordered {ℓ} : {A : Type ℓ} → List A → List A → Type ℓ
IsReordered {A = A} xs ys = (test : A → Bool) → count_if test ys ≡ count_if test xs

abbrev pub proxy_of : Survivor → ParsedProxy
proxy_of s = s.proxy

-- Xray starts on a batch exactly where no proxy of it is bad.
pub record StartsUnless (f : Float) (o : Outside f) (bad : ParsedProxy → Bool) : Type 0 where
  pub starts :
      (proxies : List ParsedProxy) (ports : List ℕ) (w : o.W)
      → any bad proxies ≡ false
      → (o.start_batch proxies ports w).0 ≡ ok tt
  pub fails :
      (proxies : List ParsedProxy) (ports : List ℕ) (w : o.W)
      → any bad proxies ≡ true
      → (text : String) × ((o.start_batch proxies ports w).0 ≡ err text)

module _ (f : Float) (o : Outside f) (config : ProbeConfig f) (bad : ParsedProxy → Bool) (limit : ℕ)
    (before : List ℕ) where
  -- The proxy met a lack of ports: a reservation of at most `limit` of them, with the reservations
  -- that there were before the batch, failed. Or it is bad and could not start, or is not bad and was
  -- tested through a port of its own process.
  abbrev pub IsOwn : Survivor → String × List (ProbeEvent f) → Type 0
  IsOwn s outcome =
      ((count : ℕ) × (p : Process f o) × (text : String) × (count ≤ limit)
        × (p.reserved ≡ before)
        × ((reserve_ports f o config count p).0 ≡ err text)
        × (outcome ≡ overloaded f o config text s))
      ⊎ ((bad s.proxy ≡ true) × (text : String) × (outcome ≡ not_started f o config text s))
      ⊎ ((bad s.proxy ≡ false)
          × (port : ℕ) × (w : o.W) × (outcome
              ≡ (s.id, (test_through_xray f o config s.deadline port s.download_due w).0)))

  overloaded-IsOwn :
      (count : ℕ) (p : Process f o) (text : String) (survivors : List Survivor)
      → (count ≤ limit) × (p.reserved ≡ before) × ((reserve_ports f o config count p).0 ≡ err text)
      → All2 IsOwn survivors (map (overloaded f o config text) survivors)
  unfolding overloaded
  overloaded-IsOwn count p text [] e = tt
  overloaded-IsOwn count p text (s ∷ rest) e =
      (inl (count, p, text, e.0, e.1, e.2, refl), overloaded-IsOwn count p text rest e)

  test_each-IsOwn :
      (pairs : List (Survivor × ℕ)) (p : Process f o)
      → any bad (map proxy_of (map (tested f o config) pairs)) ≡ false
      → All2 IsOwn (map (tested f o config) pairs) (test_each f o config pairs p).0
  unfolding test_each
  test_each-IsOwn [] p good = tt
  test_each-IsOwn ((s, port) ∷ rest) p good =
      let step = outside f o (test_through_xray f o config s.deadline port s.download_due) p in
      let own : bad s.proxy ≡ false = ground arith in
      let others : any bad (map proxy_of (map (tested f o config) rest)) ≡ false = ground arith in
      (inr (inr (own, port, p.world, refl)), test_each-IsOwn rest step.1 others)

  -- Every survivor has an outcome of its own, in some order.
  abbrev pub IsIsolated : List Survivor → Outcomes f o config → Type 0
  IsIsolated survivors outcomes =
      (ordered : List Survivor) × IsReordered survivors ordered × All2 IsOwn ordered outcomes

  completed-IsIsolated :
      (survivors : List Survivor) (ports : List ℕ) (p : Process f o)
      → length ports ≡ length survivors
      → any bad (map proxy_of survivors) ≡ false
      → IsIsolated survivors (test_each f o config (o.completion (zip survivors ports)) p).0
  completed-IsIsolated survivors ports p same good =
      let pairs = o.completion (zip survivors ports) in
      let ordered = map (tested f o config) pairs in
      let reordered = completed_survivors f o config survivors ports same in
      (
        ordered,
        reordered,
        test_each-IsOwn pairs p (
            any-map proxy_of bad ordered
            ∙ any-count_if (λ s. bad s.proxy) ordered
            ∙ ap (ltb 0) (reordered (λ s. bad s.proxy))
            ∙ sym (any-count_if (λ s. bad s.proxy) survivors)
            ∙ sym (any-map proxy_of bad survivors)
            ∙ good),
      )

  append-IsIsolated :
      (n : ℕ) (survivors : List Survivor) (left right : Outcomes f o config)
      → IsIsolated (take n survivors) left
      → IsIsolated (drop n survivors) right
      → IsIsolated survivors (left ++ right)
  append-IsIsolated n survivors left right (ls, lr, lo) (rs, rr, ro) = (
    ls ++ rs,
    λ test.
        count_if-append test ls rs
        ∙ rw (lr test, rr test) (sym (count_if-append test (take n survivors) (drop n survivors)))
        ∙ ap (count_if test) (take-drop n survivors),
    All2-append IsOwn ls rs left right lo ro,
  )

  abbrev Tests : ℕ → (List Survivor → State (Process f o) (Outcomes f o config)) → Type 0
  Tests fuel again =
      (survivors : List Survivor) (p : Process f o)
      → length survivors ≤ fuel
      → length survivors ≤ limit
      → p.reserved ≡ before
      → IsIsolated survivors (again survivors p).0

  abbrev Returns : ℕ → (List Survivor → State (Process f o) (Outcomes f o config)) → Type 0
  Returns fuel again =
      (survivors : List Survivor) (p : Process f o)
      → length survivors ≤ fuel
      → (again survivors p).1.reserved ≡ p.reserved

  -- What the answer of a start says of the batch.
  abbrev Truthful : List Survivor → Result String (Unit {0}) → Type 0
  Truthful survivors (ok _) = any bad (map proxy_of survivors) ≡ false
  Truthful survivors (err _) = any bad (map proxy_of survivors) ≡ true

  on_start-IsOwn :
      (fuel : ℕ) (again : List Survivor → State (Process f o) (Outcomes f o config))
      (survivors : List Survivor) (ports : List ℕ) (started : Result String (Unit {0}))
      (p : Process f o)
      → Tests fuel again
      → Returns fuel again
      → length survivors ≤ suc fuel
      → length survivors ≤ limit
      → release ports p.reserved ≡ before
      → length ports ≡ length survivors
      → Truthful survivors started
      → IsIsolated survivors (on_start f o config again survivors ports started p).0
  unfolding on_start drop_ports
  on_start-IsOwn fuel again survivors ports (ok _) p go back small few free same truth =
      completed-IsIsolated survivors ports p same truth
  on_start-IsOwn fuel again [] ports (err text) p go back small few free same truth =
      ([], (λ test. refl), tt)
  on_start-IsOwn fuel again (s ∷ []) ports (err text) p go back small few free same truth =
      let own : bad s.proxy ≡ true = ground arith in
      (s ∷ [], (λ test. refl), (inr (inl (own, text, refl)), tt))
  on_start-IsOwn fuel again (s ∷ t ∷ rest) ports (err text) p go back small few free same truth =
      let all : List Survivor = s ∷ t ∷ rest in
      let middle = length all / 2 in
      let p' : Process f o = record p { reserved = release ports p.reserved } in
      let left = again (take middle all) p' in
      let right = again (drop middle all) left.1 in
      let first = length-take-le middle all in
      let second = length-drop middle all in
      append-IsIsolated middle all left.0 right.0
        (go (take middle all) p' (omega (arith, first)) (omega (arith, first, few)) free)
        (go (drop middle all) left.1 (omega (arith, second)) (omega (arith, second, few))
          (back (take middle all) p' (omega (arith, first)) ∙ free))

  module _ (unless : StartsUnless f o bad) where
    truthful :
        (survivors : List Survivor) (ports : List ℕ) (w : o.W)
        → Truthful survivors (o.start_batch (map proxy_of survivors) ports w).0
    truthful survivors ports w = elim (Bool-cases (any bad (map proxy_of survivors))) [
      | inl e ↦ let (text, h) = unless.fails (map proxy_of survivors) ports w e in rw h e
      | inr e ↦ rw (unless.starts (map proxy_of survivors) ports w e) e
    ]

    on_ports-IsOwn :
        (fuel : ℕ) (again : List Survivor → State (Process f o) (Outcomes f o config))
        (survivors : List Survivor) (answer : Result String (List ℕ)) (p asker : Process f o)
        → Tests fuel again
        → Returns fuel again
        → length survivors ≤ suc fuel
        → length survivors ≤ limit
        → asker.reserved ≡ before
        → answer ≡ (reserve_ports f o config (length survivors) asker).0
        → IsAllocation config.test_start config.test_end (length survivors) before p.reserved answer
        → IsIsolated survivors (on_ports f o config again survivors answer p).0
    unfolding on_ports
    on_ports-IsOwn fuel again survivors (err text) p asker go back small few kept asked h = (
      survivors,
      (λ test. refl),
      overloaded-IsOwn (length survivors) asker text survivors (few, kept, sym asked),
    )
    on_ports-IsOwn fuel again survivors (ok ports) p asker go back small few kept asked h =
        let started = outside f o (o.start_batch (map proxy_of survivors) ports) p in
        on_start-IsOwn fuel again survivors ports started.0 started.1 go back small few h.4 h.0
          (truthful survivors ports p.world)

    batch-IsIsolated :
        config.test_start ≤ config.test_end
        → (fuel : ℕ) → Tests fuel (test_survivor_batch f o config fuel)
    unfolding test_survivor_batch reserve_ports
    batch-IsIsolated order zero [] p small few kept = ([], (λ test. refl), tt)
    batch-IsIsolated order zero (s ∷ rest) p small few kept = absurd (omega arith)
    batch-IsIsolated order (suc fuel) [] p small few kept = ([], (λ test. refl), tt)
    batch-IsIsolated order (suc fuel) (s ∷ rest) p small few kept =
        let answer = reserve_ports f o config (length (s ∷ rest)) p in
        on_ports-IsOwn fuel (test_survivor_batch f o config fuel) (s ∷ rest) answer.0 answer.1 p
          (batch-IsIsolated order fuel)
          (λ survivors q le.
            (test_survivor_batch-IsComplete f o config order fuel survivors q le).returned)
          small few kept refl
          (subst
            (λ r.
              IsAllocation config.test_start config.test_end (length (s ∷ rest)) r answer.1.reserved
                answer.0)
            kept
            (allocate-IsAllocation o.bind config.test_start config.test_end (length (s ∷ rest))
              p.reserved p.world order))

-- Where Xray starts on a batch exactly if no proxy of the batch is bad, each proxy has one outcome,
-- in some order, and it is its own, whatever proxies share its batch: a bad proxy is reported as one
-- that Xray did not start on, and any other as what its own test through a port found. The exception
-- is a proxy that is reported as overloaded, for which a reservation failed: one of no more ports than
-- the batch has proxies, beside the reservations that there were before the batch.
pub isolation :
    (f : Float) (o : Outside f) (config : ProbeConfig f) (bad : ParsedProxy → Bool)
    → StartsUnless f o bad
    → config.test_start ≤ config.test_end
    → (fuel : ℕ) (survivors : List Survivor) (p : Process f o) → length survivors ≤ fuel
    → IsIsolated f o config bad
        (length survivors)
        p.reserved
        survivors
        (test_survivor_batch f o config fuel survivors p).0
isolation f o config bad unless order fuel survivors p small =
    batch-IsIsolated f o config bad (length survivors) p.reserved unless order fuel survivors p
      small (omega arith) refl
