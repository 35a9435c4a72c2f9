-- ===== src/Xray/Runtime.antt =====
-- `RuntimeManager` of src/src/xray/runtime.rs: `ensure` in the sections between which it
-- holds no lock. A process is its port.
pub mod Cap
use proxy_fleet.Common.{
  ℕ, ◌+◌, ◌≤◌, ◌<◌, String, Bool, true, false, not, ◌≡◌, refl, Option, none, some, List, [], ◌∷◌,
  length, filter, any, leb, if◌then◌else◌, str_eq, is_some, arith, Bool-cases, inl, inr,
  length-filter-le,
}

-- `inner`, the running processes, and `starting`, the reservations.
pub record Manager : Type 0 where
  pub inner : List (String × ℕ)
  pub starting : List String

abbrev pub fresh_manager : Manager
fresh_manager = record { inner = []; starting = [] }

-- `HashMap::get`
abbrev pub port_of : String → List (String × ℕ) → Option ℕ
port_of id [] = none
port_of id ((k, port) ∷ rest) =
    let later = port_of id rest in if str_eq k id then some port else later

abbrev is_not : String → String → Bool
is_not id k = not (str_eq k id)

-- What the reservation of a start answers.
pub data Reservation : Type 0 where
  in_progress cap_reached reserved : Reservation

-- `ensure` under the lock of `starting`. The look at the running processes before it is under
-- another lock, so what it saw may be out of date.
unfoldable pub reserve : ℕ → String → Manager → Reservation × Manager
reserve cap id m =
    if any (λ k. str_eq k id) m.starting
    then (in_progress, m)
    else if leb cap (length m.inner + length m.starting)
    then (cap_reached, m)
    else (reserved, record m { starting = id ∷ m.starting })

-- `starting.remove`, after the process has been started, or has failed to start.
unfoldable pub unreserve : String → Manager → Manager
unreserve id m = record m { starting = filter (is_not id) m.starting }

-- The rest of `ensure` after a start at the port, on the process that the node has already.
unfoldable pub install_over : String → ℕ → Manager → Option ℕ → ℕ × Manager
install_over id port m (some existing) = (existing, m)
install_over id port m none = (port, record m { inner = (id, port) ∷ m.inner })

unfoldable pub install : String → ℕ → Manager → ℕ × Manager
unfolding install_over
install id port m = install_over id port m (port_of id m.inner)

-- `stop`
unfoldable pub stop : String → Manager → Manager
stop id m = record m { inner = filter (λ entry. is_not id entry.0) m.inner }

abbrev is_starting : String → Manager → Bool
is_starting id m = any (λ k. str_eq k id) m.starting

-- The sections of `ensure` and `stop`, where none comes between the return of a reservation and the
-- entry of the process: the callers of `ensure` come one after another.
pub data Serial (cap : ℕ) : Manager → Manager → Type 0 where
  reserves : (id : String) (m : Manager) → Serial cap m (reserve cap id m).1
  fails : (id : String) (m : Manager) → is_starting id m ≡ true → Serial cap m (unreserve id m)
  finishes :
      (id : String) (port : ℕ) (m : Manager)
      → is_starting id m ≡ true
      → Serial cap m (install id port (unreserve id m)).1
  stops : (id : String) (m : Manager) → Serial cap m (stop id m)

pub data Serials (cap : ℕ) : Manager → Manager → Type 0 where
  stay : (m : Manager) → Serials cap m m
  then : {a b c : Manager} → Serial cap a b → Serials cap b c → Serials cap a c
