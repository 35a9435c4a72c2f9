-- ===== src/Common/Counting.antt =====
-- Counts over lists, and the two parts of a list, through maps and appends.
use mathlib.Core.Path.{◌≡◌, refl, ap}
use mathlib.Core.Bool.{Bool, ◌||◌}
use mathlib.Core.List.{List, [], ◌∷◌, ◌++◌, map}
use Prim.Native.Nat.{ℕ, zero, suc, ◌+◌, ◌-◌, ◌≤◌}
use native.Mathlib.Omega.{arith}
use proxy_fleet.Common.Tests.{ltb, if◌then◌else◌}
use proxy_fleet.Common.Lists.{any, count_if, length, take, drop}

pub map-take-drop {ℓ κ} :
    {A : Type ℓ} {B : Type κ} (g : A → B) (n : ℕ) (xs : List A)
    → map g (take n xs) ++ map g (drop n xs) ≡ map g xs
map-take-drop g zero xs = refl
map-take-drop g (suc n) [] = refl
map-take-drop g (suc n) (x ∷ xs) = ap (λ ys. g x ∷ ys) (map-take-drop g n xs)

pub length-take-le {ℓ} : {A : Type ℓ} (n : ℕ) (xs : List A) → length (take n xs) ≤ n
length-take-le zero xs = omega arith
length-take-le (suc n) [] = omega arith
length-take-le (suc n) (x ∷ xs) = omega (arith, length-take-le n xs)

pub length-drop {ℓ} : {A : Type ℓ} (n : ℕ) (xs : List A) → length (drop n xs) ≡ length xs - n
length-drop zero xs = omega arith
length-drop (suc n) [] = omega arith
length-drop (suc n) (x ∷ xs) = omega (arith, length-drop n xs)

pub map-append {ℓ κ} :
    {A : Type ℓ} {B : Type κ} (g : A → B) (xs ys : List A) → map g (xs ++ ys) ≡ map g xs ++ map g ys
map-append g [] ys = refl
map-append g (x ∷ xs) ys = ap (λ zs. g x ∷ zs) (map-append g xs ys)

pub count_if-append {ℓ} :
    {A : Type ℓ} (test : A → Bool) (xs ys : List A)
    → count_if test (xs ++ ys) ≡ count_if test xs + count_if test ys
count_if-append test [] ys = omega arith
count_if-append test (x ∷ xs) ys = ground (arith, count_if-append test xs ys)

pub any-count_if {ℓ} :
    {A : Type ℓ} (test : A → Bool) (xs : List A) → any test xs ≡ ltb 0 (count_if test xs)
any-count_if test [] = refl
any-count_if test (x ∷ xs) = ground (arith, any-count_if test xs)

pub count_if-map {ℓ κ} :
    {A : Type ℓ} {B : Type κ} (g : A → B) (test : B → Bool) (xs : List A)
    → count_if test (map g xs) ≡ count_if (λ x. test (g x)) xs
count_if-map g test [] = refl
count_if-map g test (x ∷ xs) = ap (λ n. if test (g x) then suc n else n) (count_if-map g test xs)

pub take-drop {ℓ} : {A : Type ℓ} (n : ℕ) (xs : List A) → take n xs ++ drop n xs ≡ xs
take-drop zero xs = refl
take-drop (suc n) [] = refl
take-drop (suc n) (x ∷ xs) = ap (λ ys. x ∷ ys) (take-drop n xs)

pub any-map :
    {A B : Type 0} (g : A → B) (test : B → Bool) (xs : List A)
    → any test (map g xs) ≡ any (λ x. test (g x)) xs
any-map g test [] = refl
any-map g test (x ∷ xs) = ap (λ b. test (g x) || b) (any-map g test xs)
