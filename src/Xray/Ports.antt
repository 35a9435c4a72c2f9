-- ===== src/Xray/Ports.antt =====
-- `allocate_port`, `allocate_ports` and the drop of a reservation, of src/src/xray/mod.rs. What other
-- tasks reserve in the meantime is not modelled.
pub mod Reserved
use proxy_fleet.Common.{
  ℕ, zero, suc, ◌+◌, ◌-◌, String, Bool, true, false, not, ◌&&◌, ◌==◌, if◌then◌else◌, List, [], ◌∷◌,
  ◌++◌, any, filter, length, Result, ok, err,
}

-- `PORT_RESERVATIONS.contains`
abbrev pub contains : ℕ → List ℕ → Bool
contains port reserved = any (λ p. p == port) reserved

-- `PORT_RESERVATIONS.remove`: the drop of one reservation, and of a list of them
abbrev pub remove : ℕ → List ℕ → List ℕ
remove port reserved = filter (λ p. not (p == port)) reserved

unfoldable pub release : List ℕ → List ℕ → List ℕ
release [] reserved = reserved
release (port ∷ ports) reserved = release ports (remove port reserved)

-- How many ports `start..=end` has.
abbrev pub span : ℕ → ℕ → ℕ
span start end = end + 1 - start

-- `bind` tries to listen on a port of the loopback address.
module _ {W : Type 0} (bind : ℕ → W → Bool × W) where
  unfoldable pub find_port : ℕ → ℕ → List ℕ → W → Result String ℕ × List ℕ × W
  find_port zero port reserved w = (err "no available test port", reserved, w)
  find_port (suc left) port reserved w = elim (contains port reserved) [
    | true ↦ find_port left (port + 1) reserved w
    | false ↦
        let (free, w') = bind port w in
        elim (free && not (contains port reserved)) [
          | true ↦ (ok port, port ∷ reserved, w')
          | false ↦ find_port left (port + 1) reserved w'
        ]
  ]

  unfoldable pub allocate_port : ℕ → ℕ → List ℕ → W → Result String ℕ × List ℕ × W
  unfolding find_port
  allocate_port start end = find_port (span start end) start

  -- The ports taken so far, the set of reservations and the world.
  pub record Taken : Type 0 where
    pub ports : List ℕ
    pub reserved : List ℕ
    pub world : W

  -- One round of the loop of `allocate_ports`.
  unfoldable pub take_port : ℕ → Taken → Taken
  take_port port t =
      let (free, w') = bind port t.world in
      if contains port t.reserved
      then t
      else if free && not (contains port t.reserved)
      then record { ports = t.ports ++ port ∷ []; reserved = port ∷ t.reserved; world = w' }
      else record t { world = w' }

  unfoldable pub take_ports : ℕ → ℕ → ℕ → Taken → Taken
  take_ports zero port count t = t
  take_ports (suc left) port count t = elim (length t.ports == count) [
    | true ↦ t
    | false ↦ take_ports left (port + 1) count (take_port port t)
  ]

  unfoldable pub allocate_ports : ℕ → ℕ → ℕ → List ℕ → W → Result String (List ℕ) × List ℕ × W
  allocate_ports start end count reserved w =
      let t =
        take_ports (span start end) start count
          (record { ports = []; reserved = reserved; world = w }) in
      if length t.ports == count
      then (ok t.ports, t.reserved, t.world)
      else (err "not enough available test ports", release t.ports t.reserved, t.world)
