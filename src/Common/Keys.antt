-- ===== src/Common/Keys.antt =====
-- Tables with a unique text column, and the updates of the one row that has a key.
use Prim.Native.String.{String}
use mathlib.Core.Path.{◌≡◌, refl, sym, subst, ap}
use mathlib.Core.Logic.{inl, inr}
use mathlib.Core.Bool.{Bool, true, false}
use mathlib.Core.Option.{none, some}
use mathlib.Core.List.{List, [], ◌∷◌, ◌++◌}
use text.Mathlib.Text.{◌==◌ as str_eq}
use text.Mathlib.TextEquality.{eq_iff}
use proxy_fleet.Common.Tests.{Bool-cases, if◌then◌else◌}
use proxy_fleet.Common.Lists.{
  All, All-map, All-zip, All-filter, All-append, filter, update_where, find,
}

pub some_eq {ℓ} : {A : Type ℓ} {a b : A} → some a ≡ some b → a ≡ b
some_eq h = cc

-- What holds of every row holds of the row that is found.
pub All-find {ℓ κ} :
    {A : Type ℓ} (P : A → Type κ) (test : A → Bool) {row : A} (xs : List A)
    → All P xs
    → find test xs ≡ some row
    → P row
All-find P test [] h f = absurd (cc f)
All-find P test (x ∷ xs) h f = elim (Bool-cases (test x)) [
  | inl found ↦ subst P (some_eq (rw found at f)) h.0
  | inr other ↦ All-find P test xs h.1 (rw other at f)
]

module _ {ℓ} {A : Type ℓ} (key : A → String) where
  abbrev pub at_key : String → A → Bool
  at_key k x = str_eq (key x) k

  -- No row of the list has the key.
  abbrev pub Lacks : String → List A → Type 0
  Lacks k = All (λ x. at_key k x ≡ false)

  abbrev pub Distinct : List A → Type 0
  Distinct [] = Unit
  Distinct (x ∷ xs) = Lacks (key x) xs × Distinct xs

  pub update-Lacks :
      (k : String) (set : A → A) (xs : List A) → Lacks k xs → update_where (at_key k) set xs ≡ xs
  update-Lacks k set [] h = refl
  update-Lacks k set (x ∷ xs) h = rw (h.0, update-Lacks k set xs h.1)

  pub find-Lacks : (k : String) (xs : List A) → find (at_key k) xs ≡ none → Lacks k xs
  find-Lacks k [] h = tt
  find-Lacks k (x ∷ xs) h = elim (Bool-cases (at_key k x)) [
    | inl found ↦ absurd (cc (rw found at h))
    | inr other ↦ (other, find-Lacks k xs (rw other at h))
  ]

  Lacks-of_head :
      (x : A) (xs : List A) (k : String) → at_key k x ≡ true → Lacks (key x) xs → Lacks k xs
  Lacks-of_head x xs k e h = rw ((eq_iff (key x) k).0 e) at h

  Lacks-vacuous {κ} :
      (P : A → Type κ) (k : String) (xs : List A)
      → Lacks k xs
      → All (λ x. at_key k x ≡ true → P x) xs
  Lacks-vacuous P k [] h = tt
  Lacks-vacuous P k (x ∷ xs) h = (λ t. absurd (cc (h.0, t)), Lacks-vacuous P k xs h.1)

  -- An update by key concerns the row that a search by key finds, and no other.
  pub All-update_found {κ} :
      (P : A → Type κ) (k : String) (set : A → A) (row : A) (xs : List A)
      → Distinct xs
      → find (at_key k) xs ≡ some row
      → All P xs
      → P (set row)
      → All P (update_where (at_key k) set xs)
  All-update_found P k set row [] d f h p = tt
  All-update_found P k set row (x ∷ xs) d f h p = elim (Bool-cases (at_key k x)) [
    | inl found ↦
        let e : x ≡ row = some_eq (rw found at f) in
        rw (found, update-Lacks k set xs (Lacks-of_head x xs k found d.0)) (rw e p, h.1)
    | inr other ↦ rw other (h.0, All-update_found P k set row xs d.1 (rw other at f) h.1 p)
  ]

  pub Lacks-update_where :
      (k : String) (test : A → Bool) (set : A → A) (xs : List A)
      → ((x : A) → key (set x) ≡ key x)
      → Lacks k xs
      → Lacks k (update_where test set xs)
  Lacks-update_where k test set [] same h = tt
  Lacks-update_where k test set (x ∷ xs) same h =
      (one (test x), Lacks-update_where k test set xs same h.1)
    where
      one : (b : Bool) → at_key k (if b then set x else x) ≡ false
      one true = rw (same x) h.0
      one false = h.0

  pub Distinct-update_where :
      (test : A → Bool) (set : A → A) (xs : List A)
      → ((x : A) → key (set x) ≡ key x)
      → Distinct xs
      → Distinct (update_where test set xs)
  Distinct-update_where test set [] same d = tt
  Distinct-update_where test set (x ∷ xs) same d = (
    rw (kept (test x)) (Lacks-update_where (key x) test set xs same d.0),
    Distinct-update_where test set xs same d.1,
  )
    where
      kept : (b : Bool) → key (if b then set x else x) ≡ key x
      kept true = same x
      kept false = refl

  -- A search by key after an update of other columns.
  pub find-update_self :
      (k : String) (set : A → A) (row : A) (xs : List A)
      → ((x : A) → key (set x) ≡ key x)
      → find (at_key k) xs ≡ some row
      → find (at_key k) (update_where (at_key k) set xs) ≡ some (set row)
  find-update_self k set row [] same f = absurd (cc f)
  find-update_self k set row (x ∷ xs) same f = elim (Bool-cases (at_key k x)) [
    | inl found ↦
        let kept : at_key k (set x) ≡ true = rw (same x) found in
        let e : x ≡ row = some_eq (rw found at f) in rw (found, kept) (ap (λ r. some (set r)) e)
    | inr other ↦ rw (other, other) (find-update_self k set row xs same (rw other at f))
  ]

  -- An update that passes over the rows with the key.
  pub find-update_other :
      (k : String) (test : A → Bool) (set : A → A) (xs : List A)
      → ((x : A) → key (set x) ≡ key x)
      → ((x : A) → test x ≡ true → at_key k x ≡ false)
      → find (at_key k) (update_where test set xs) ≡ find (at_key k) xs
  find-update_other k test set [] same other = refl
  find-update_other k test set (x ∷ xs) same other = elim (Bool-cases (test x)) [
    | inl e ↦
        let kept : at_key k (set x) ≡ false = rw (same x) (other x e) in
        rw (e, kept, other x e) (find-update_other k test set xs same other)
    | inr e ↦ rw (e, find-update_other k test set xs same other) refl
  ]

  -- In a table with a unique key, what holds of the row found by a key holds of every row with it.
  pub All-of_found {κ} :
      (P : A → Type κ) (k : String) (row : A) (xs : List A)
      → Distinct xs
      → find (at_key k) xs ≡ some row
      → P row
      → All (λ x. at_key k x ≡ true → P x) xs
  All-of_found P k row [] d f p = tt
  All-of_found P k row (x ∷ xs) d f p = elim (Bool-cases (at_key k x)) [
    | inl found ↦
        let e : x ≡ row = some_eq (rw found at f) in
        (λ _. rw e p, Lacks-vacuous P k xs (Lacks-of_head x xs k found d.0))
    | inr other ↦ (λ t. absurd (cc (other, t)), All-of_found P k row xs d.1 (rw other at f) p)
  ]

  pub at_key-of_distinct : (x y : A) → at_key (key x) y ≡ false → at_key (key y) x ≡ false
  at_key-of_distinct x y h = elim (Bool-cases (at_key (key y) x)) [
    | inl e ↦
        let same : at_key (key x) y ≡ true =
          (eq_iff (key y) (key x)).1 (sym ((eq_iff (key x) (key y)).0 e)) in
        absurd (cc (h, same))
    | inr e ↦ e
  ]

  -- In a table with a unique key, a search by the key of a row finds that row.
  pub Distinct-found : (xs : List A) → Distinct xs → All (λ x. find (at_key (key x)) xs ≡ some x) xs
  Distinct-found [] d = tt
  Distinct-found (x ∷ xs) d =
      let here : at_key (key x) x ≡ true = (eq_iff (key x) (key x)).1 refl in
      (
        rw here refl,
        All-map _ xs (λ y h. rw (at_key-of_distinct x y h.0) h.1)
            (All-zip _ _ xs d.0 (Distinct-found xs d.1)),
      )

  pub Distinct-filter : (test : A → Bool) (xs : List A) → Distinct xs → Distinct (filter test xs)
  Distinct-filter test [] d = tt
  Distinct-filter test (x ∷ xs) d = elim (Bool-cases (test x)) [
    | inl e ↦
        rw e (All-filter _ test xs (All-map _ xs (λ y h _. h) d.0), Distinct-filter test xs d.1)
    | inr e ↦ rw e (Distinct-filter test xs d.1)
  ]

  pub Distinct-snoc :
      (xs : List A) (x : A) → Distinct xs → Lacks (key x) xs → Distinct (xs ++ x ∷ [])
  Distinct-snoc [] x d h = (tt, tt)
  Distinct-snoc (y ∷ ys) x d h =
      (All-append _ ys (x ∷ []) d.0 (at_key-of_distinct x y h.0, tt), Distinct-snoc ys x d.1 h.1)

  -- A search by key after an update that keeps the keys.
  pub find-update_where :
      (k : String) (test : A → Bool) (set : A → A) (row : A) (xs : List A)
      → ((x : A) → key (set x) ≡ key x)
      → find (at_key k) xs ≡ some row
      → find (at_key k) (update_where test set xs) ≡ some (if test row then set row else row)
  find-update_where k test set row [] same f = absurd (cc f)
  find-update_where k test set row (x ∷ xs) same f = elim (Bool-cases (at_key k x)) [
    | inl found ↦
        let e : x ≡ row = some_eq (rw found at f) in
        let kept : at_key k (if test x then set x else x) ≡ true = either (test x) found in
        rw kept (ap (λ r. some (if test r then set r else r)) e)
    | inr other ↦
        let kept : at_key k (if test x then set x else x) ≡ false = either (test x) other in
        rw kept (find-update_where k test set row xs same (rw other at f))
  ]
    where
      either : {c : Bool} (b : Bool) → at_key k x ≡ c → at_key k (if b then set x else x) ≡ c
      either true e = rw (same x) e
      either false e = e
