-- ===== src/Common/Membership.antt =====
-- Members of a list, through sorts, searches and maps.
use mathlib.Core.List.{Memᴰ}
use mathlib.Core.Path.{◌≡◌, refl, sym, ap, subst}
use mathlib.Core.Logic.{◌⊎◌, inl, inr}
use mathlib.Core.Bool.{Bool, false}
use mathlib.Core.List.{List, [], ◌∷◌, map}
use proxy_fleet.Common.Tests.{Bool-cases}
use proxy_fleet.Common.Lists.{All, All-map, filter, insert_by, sort_by}

module _ {A : Type 0} where
  pub All-Mem : (xs : List A) → All (λ x. Memᴰ x xs) xs
  All-Mem [] = tt
  All-Mem (x ∷ xs) = (Memᴰ.head refl, All-map _ xs (λ y m. Memᴰ.tail m) (All-Mem xs))

  Mem-insert_here : (less : A → A → Bool) (x : A) (xs : List A) → Memᴰ x (insert_by less x xs)
  Mem-insert_here less x [] = Memᴰ.head refl
  Mem-insert_here less x (y ∷ ys) = elim (Bool-cases (less y x)) [
    | inl e ↦ rw e (Memᴰ.tail (Mem-insert_here less x ys))
    | inr e ↦ rw e (Memᴰ.head refl)
  ]

  Mem-insert_by :
      (less : A → A → Bool) (x y : A) (xs : List A) → Memᴰ y xs → Memᴰ y (insert_by less x xs)
  Mem-insert_by less x y [] m = elim m [ ]
  Mem-insert_by less x y (z ∷ zs) (Memᴰ.head e) = elim (Bool-cases (less z x)) [
    | inl t ↦ rw t (Memᴰ.head e)
    | inr t ↦ rw t (Memᴰ.tail (Memᴰ.head e))
  ]
  Mem-insert_by less x y (z ∷ zs) (Memᴰ.tail m) = elim (Bool-cases (less z x)) [
    | inl t ↦ rw t (Memᴰ.tail (Mem-insert_by less x y zs m))
    | inr t ↦ rw t (Memᴰ.tail (Memᴰ.tail m))
  ]

  pub All-Mem-sort_by : (less : A → A → Bool) (xs : List A) → All (λ x. Memᴰ x (sort_by less xs)) xs
  All-Mem-sort_by less [] = tt
  All-Mem-sort_by less (x ∷ xs) = (
    Mem-insert_here less x (sort_by less xs),
    All-map _ xs (λ y m. Mem-insert_by less x y (sort_by less xs) m) (All-Mem-sort_by less xs),
  )

pub Mem-map : {A B : Type 0} (g : A → B) (x : A) (xs : List A) → Memᴰ x xs → Memᴰ (g x) (map g xs)
Mem-map g x [] m = elim m [ ]
Mem-map g x (y ∷ ys) (Memᴰ.head e) = Memᴰ.head (ap g e)
Mem-map g x (y ∷ ys) (Memᴰ.tail m) = Memᴰ.tail (Mem-map g x ys m)

pub Mem-filter :
    {A : Type 0} (test : A → Bool) (xs : List A)
    → All (λ x. (test x ≡ false) ⊎ Memᴰ x (filter test xs)) xs
Mem-filter test [] = tt
Mem-filter test (x ∷ xs) = elim (Bool-cases (test x)) [
  | inl e ↦ (
    inr (rw e (Memᴰ.head refl)),
    All-map _ xs (λ y m. elim m [ inl f ↦ inl f | inr m ↦ inr (rw e (Memᴰ.tail m)) ])
        (Mem-filter test xs),
  )
  | inr e ↦ (
    inl e,
    All-map _ xs (λ y m. elim m [ inl f ↦ inl f | inr m ↦ inr (rw e m) ]) (Mem-filter test xs),
  )
]

pub All-of_map :
    {A B : Type 0} (P : B → Type 0) (g : A → B) (xs : List A)
    → All (λ x. P (g x)) xs
    → All P (map g xs)
All-of_map P g [] h = tt
All-of_map P g (x ∷ xs) h = (h.0, All-of_map P g xs h.1)

-- What holds of every item holds of an item.
pub All-at : {A : Type 0} (P : A → Type 0) (x : A) (xs : List A) → All P xs → Memᴰ x xs → P x
All-at P x [] h m = elim m [ ]
All-at P x (y ∷ ys) h (Memᴰ.head e) = subst P (sym e) h.0
All-at P x (y ∷ ys) h (Memᴰ.tail m) = All-at P x ys h.1 m
