-- ===== src/Scheduler/Incident/Sets.antt =====
-- The sets of names that the loop over the failed reports collects.
use proxy_fleet.Common.{
  ◌≤◌, ◌≡◌, ◌≢◌, ◌⊎◌, String, true, ◌||◌, List, [], ◌∷◌, length, arith, eq_iff, str_eq,
}
use proxy_fleet.Scheduler.Incident.{contains, insert}

pub contains-insert :
    (x y : String) (set : List String) → contains x (insert y set) ≡ (str_eq x y || contains x set)
unfolding insert contains
contains-insert x y set = ground (arith, eq_iff x y)

pub size_pos : (x : String) (set : List String) → contains x set ≡ true → 1 ≤ length set
unfolding contains
size_pos x [] h = cc
size_pos x (y ∷ ys) h = omega arith

pub two_members :
    (x y : String) (set : List String)
    → x ≢ y
    → contains x set ≡ true
    → contains y set ≡ true
    → 2 ≤ length set
unfolding contains
two_members x y [] n h k = cc
two_members x y (z ∷ zs) n h k =
    ground (arith, eq_iff x z, eq_iff y z, size_pos x zs, size_pos y zs)

-- Inserting keeps the members, and inserting the only member changes nothing.
pub contains-insert_mono :
    (x y : String) (set : List String) → contains x set ≡ true → contains x (insert y set) ≡ true
contains-insert_mono x y set h = ground (arith, contains-insert x y set)

-- A set with no member but `a`.
abbrev pub IsAtMost : String → List String → Type 0
IsAtMost a set = (set ≡ []) ⊎ (set ≡ a ∷ [])

pub insert-IsAtMost :
    (a x : String) (set : List String) → x ≡ a → IsAtMost a set → IsAtMost a (insert x set)
unfolding insert contains
insert-IsAtMost a x set e h = ground (arith, eq_iff x a)
