-- ===== src/Xray/Ports/Reserved.antt =====
-- The ports that an allocation takes and reserves.
use proxy_fleet.Common.{
  ℕ, zero, suc, ◌+◌, ◌≤◌, ◌<◌, String, Bool, true, false, ◌≡◌, refl, ◌==◌, ==_iff, List, [], ◌∷◌,
  ◌++◌, length, All, All-append, All-map, Bool-cases, inl, inr, arith, Result, ok, err, ap, ◌∙◌,
}
use proxy_fleet.Xray.Ports.{
  contains, remove, release, span, Taken, take_port, take_ports, allocate_ports,
}

-- The set with the ports in it, the last one in front.
abbrev onto : List ℕ → List ℕ → List ℕ
onto [] reserved = reserved
onto (p ∷ ps) reserved = onto ps (p ∷ reserved)

abbrev pub Ascending : List ℕ → Type 0
Ascending [] = Unit
Ascending (p ∷ ps) = All (λ q. p < q) ps × Ascending ps

abbrev pub Fresh : List ℕ → ℕ → Type 0
Fresh reserved p = contains p reserved ≡ false

onto-snoc :
    (ps : List ℕ) (p : ℕ) (reserved : List ℕ) → onto (ps ++ p ∷ []) reserved ≡ p ∷ onto ps reserved
onto-snoc [] p reserved = refl
onto-snoc (q ∷ ps) p reserved = onto-snoc ps p (q ∷ reserved)

Ascending-snoc :
    (ps : List ℕ) (p : ℕ) → Ascending ps → All (λ q. q < p) ps → Ascending (ps ++ p ∷ [])
Ascending-snoc [] p a h = (tt, tt)
Ascending-snoc (q ∷ ps) p a h =
    (All-append _ ps (p ∷ []) a.0 (h.0, tt), Ascending-snoc ps p a.1 h.1)

Fresh-onto : (ps reserved : List ℕ) (p : ℕ) → Fresh (onto ps reserved) p → Fresh reserved p
Fresh-onto [] reserved p h = h
Fresh-onto (q ∷ ps) reserved p h =
    let rest : contains p (q ∷ reserved) ≡ false = Fresh-onto ps (q ∷ reserved) p h in ground arith

remove-Fresh : (p : ℕ) (reserved : List ℕ) → Fresh reserved p → remove p reserved ≡ reserved
remove-Fresh p [] h = refl
remove-Fresh p (q ∷ reserved) h = elim (Bool-cases (q == p)) [
  | inl e ↦ absurd (cc (rw e at h))
  | inr e ↦ rw e (ap (λ r. q ∷ r) (remove-Fresh p reserved (rw e at h)))
]

remove-onto :
    (p : ℕ) (ps reserved : List ℕ)
    → All (λ q. p < q) ps
    → remove p (onto ps reserved) ≡ onto ps (remove p reserved)
remove-onto p [] reserved h = refl
remove-onto p (q ∷ ps) reserved h =
    let other : (q == p) ≡ false = ground (arith, h.0) in
    remove-onto p ps (q ∷ reserved) h.1 ∙ ap (onto ps) (rw other refl)

contains-onto :
    (p : ℕ) (ps reserved : List ℕ)
    → contains p reserved ≡ true
    → contains p (onto ps reserved) ≡ true
contains-onto p [] reserved h = h
contains-onto p (q ∷ ps) reserved h = contains-onto p ps (q ∷ reserved) (ground arith)

-- The ports are reserved.
abbrev pub Reserved : List ℕ → ℕ → Type 0
Reserved reserved p = contains p reserved ≡ true

onto-Reserved : (ps reserved : List ℕ) → All (Reserved (onto ps reserved)) ps
onto-Reserved [] reserved = tt
onto-Reserved (p ∷ ps) reserved =
    (contains-onto p ps (p ∷ reserved) (ground arith), onto-Reserved ps (p ∷ reserved))

-- A release after the reservations restores the set.
release-onto :
    (ps reserved : List ℕ)
    → Ascending ps
    → All (Fresh reserved) ps
    → release ps (onto ps reserved) ≡ reserved
unfolding release
release-onto [] reserved a h = refl
release-onto (p ∷ ps) reserved a h =
    let same : (p == p) ≡ true = ground arith in
    let one : remove p (p ∷ reserved) ≡ reserved = rw same (remove-Fresh p reserved h.0) in
    ap (release ps) (remove-onto p ps (p ∷ reserved) a.0 ∙ ap (onto ps) one)
    ∙ release-onto ps reserved a.1 h.1

module _ {W : Type 0} (bind : ℕ → W → Bool × W) (start : ℕ) (before : List ℕ) where
  -- What the loop has taken below a port.
  abbrev Holds : ℕ → Taken bind → Type 0
  Holds next t =
      All (λ p. (start ≤ p) × (p < next)) t.ports
      × Ascending t.ports
      × All (Fresh before) t.ports
      × (t.reserved ≡ onto t.ports before)

  Holds-mono : (a b : ℕ) (t : Taken bind) → a ≤ b → Holds a t → Holds b t
  Holds-mono a b t le h =
      (All-map _ t.ports (λ p q. (q.0, omega (arith, q.1, le))) h.0, h.1, h.2, h.3)

  take_port-Holds :
      (port : ℕ) (t : Taken bind)
      → start ≤ port
      → Holds port t
      → Holds (port + 1) (take_port bind port t)
  unfolding take_port
  take_port-Holds port t s h =
      let later : Holds (port + 1) t = Holds-mono port (port + 1) t (omega arith) h in
      let free = (bind port t.world).0 in
      elim (Bool-cases (contains port t.reserved)) [
        | inl e ↦ rw (e, take_port) later
        | inr e ↦
            let fresh : Fresh before port = Fresh-onto t.ports before port (rw h.3 at e) in
            elim (Bool-cases free) [
              | inl e' ↦
                  rw (e, e', take_port)
                    (
                      All-append _ t.ports (port ∷ []) later.0 ((s, omega arith), tt),
                      Ascending-snoc t.ports port h.1 (All-map _ t.ports (λ p q. q.1) h.0),
                      All-append _ t.ports (port ∷ []) h.2 (fresh, tt),
                      rw (h.3, onto-snoc t.ports port before) refl,
                    )
              | inr e' ↦ rw (e, e', take_port) later
            ]
      ]

  take_ports-Holds :
      (left port count : ℕ) (t : Taken bind)
      → start ≤ port
      → Holds port t
      → Holds (port + left) (take_ports bind left port count t)
  unfolding take_ports
  take_ports-Holds zero port count t s h = let same : port + 0 ≡ port = omega arith in rw same h
  take_ports-Holds (suc left) port count t s h = elim (Bool-cases (length t.ports == count)) [
    | inl e ↦ rw (e, take_ports) (Holds-mono port (port + suc left) t (omega arith) h)
    | inr e ↦
        let same : port + suc left ≡ port + 1 + left = omega arith in
        rw (e, same, take_ports)
          (take_ports-Holds left (port + 1) count (take_port bind port t) (omega arith)
            (take_port-Holds port t s h))
  ]

-- What an allocation returns and leaves of the reservations.
abbrev pub IsAllocation : ℕ → ℕ → ℕ → List ℕ → List ℕ → Result String (List ℕ) → Type 0
IsAllocation start end count before after (ok ports) =
    (length ports ≡ count)
    × All (λ p. (start ≤ p) × (p ≤ end)) ports
    × Ascending ports
    × All (Fresh before) ports
    × (release ports after ≡ before)
    × All (Reserved after) ports
IsAllocation start end count before after (err _) = after ≡ before

module _ {W : Type 0} (bind : ℕ → W → Bool × W) where
  -- An allocation of ports from a range that is not empty either returns exactly as many as were
  -- asked for, ascending, all of the range, none reserved before and all reserved after, or it fails.
  -- To release what it returned gives the reservations that there were before, and a failure leaves
  -- these.
  pub allocate-IsAllocation :
      (start end count : ℕ) (reserved : List ℕ) (w : W)
      → start ≤ end
      → IsAllocation start end count reserved
          (allocate_ports bind start end count reserved w).1
          (allocate_ports bind start end count reserved w).0
  unfolding allocate_ports
  allocate-IsAllocation start end count reserved w order =
      let first : Taken bind = record { ports = []; reserved = reserved; world = w } in
      let t = take_ports bind (span start end) start count first in
      let h =
        take_ports-Holds bind start reserved (span start end) start count first (omega arith)
          (tt, tt, tt, refl) in
      let back : release t.ports t.reserved ≡ reserved =
        rw h.3 (release-onto t.ports reserved h.1 h.2) in
      elim (Bool-cases (length t.ports == count)) [
        | inl e ↦
            rw (e, allocate_ports)
              (
                (==_iff _ _).0 e,
                All-map _ t.ports (λ p q. (q.0, omega (arith, q.1))) h.0,
                h.1,
                h.2,
                back,
                rw h.3 (onto-Reserved t.ports reserved),
              )
        | inr e ↦ rw (e, allocate_ports) back
      ]
