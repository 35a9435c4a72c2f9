-- ===== src/Xray/Runtime/Cap.antt =====
-- The cap on long-lived processes where no start is interrupted.
use proxy_fleet.Common.{
  ℕ, ◌+◌, ◌≤◌, String, true, ◌≡◌, Option, none, some, List, [], ◌∷◌, length, filter, any, str_eq,
  arith, Bool-cases, inl, inr, length-filter-le,
}
use proxy_fleet.Xray.Runtime.{
  Manager, reserve, unreserve, install_over, install, stop, is_not, is_starting, Serial, Serials,
}

-- The processes that run and those that are being started.
unfoldable pub load : Manager → ℕ
load m = length m.inner + length m.starting

reserve-le : (cap : ℕ) (id : String) (m : Manager) → load m ≤ cap → load (reserve cap id m).1 ≤ cap
unfolding reserve load
reserve-le cap id m h = ground arith

filter-lt :
    (id : String) (xs : List String)
    → any (λ k. str_eq k id) xs ≡ true
    → length (filter (is_not id) xs) + 1 ≤ length xs
filter-lt id [] e = absurd (cc e)
filter-lt id (x ∷ xs) e = elim (Bool-cases (str_eq x id)) [
  | inl same ↦ rw same (omega (arith, length-filter-le (is_not id) xs))
  | inr other ↦ rw other (omega (arith, filter-lt id xs (rw other at e)))
]

unreserve-lt :
    (id : String) (m : Manager) → is_starting id m ≡ true → load (unreserve id m) + 1 ≤ load m
unfolding unreserve load
unreserve-lt id m e = omega (arith, filter-lt id m.starting e)

install_over-le :
    (id : String) (port : ℕ) (m : Manager) (o : Option ℕ)
    → load (install_over id port m o).1 ≤ load m + 1
unfolding install_over load
install_over-le id port m none = omega arith
install_over-le id port m (some existing) = omega arith

install-le : (id : String) (port : ℕ) (m : Manager) → load (install id port m).1 ≤ load m + 1
unfolding install
install-le id port m = install_over-le id port m _

stop-le : (id : String) (m : Manager) → load (stop id m) ≤ load m
unfolding stop load
stop-le id m = omega (arith, length-filter-le (λ (entry : String × ℕ). is_not id entry.0) m.inner)

Serial-le : {cap : ℕ} {a b : Manager} → Serial cap a b → load a ≤ cap → load b ≤ cap
Serial-le {cap} (Serial.reserves id m) h = reserve-le cap id m h
Serial-le (Serial.fails id m e) h = omega (arith, unreserve-lt id m e)
Serial-le (Serial.finishes id port m e) h =
    omega (arith, unreserve-lt id m e, install-le id port (unreserve id m))
Serial-le (Serial.stops id m) h = omega (arith, stop-le id m)

-- Where no call comes between the return of a reservation and the entry of its process, the
-- processes that run and those that are being started are never more than the cap.
pub Serials-cap : {cap : ℕ} {a b : Manager} → Serials cap a b → load a ≤ cap → load b ≤ cap
Serials-cap (Serials.stay m) h = h
Serials-cap (Serials.then s rest) h = Serials-cap rest (Serial-le s h)
