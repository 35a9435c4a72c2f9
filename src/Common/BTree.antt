-- ===== src/Common/BTree.antt =====
-- `BTreeMap<String, V>`: the entries in the order of their keys.
use Prim.Native.String.{String, compare}
use mathlib.Core.Option.{Option, none, some}
use mathlib.Core.List.{List, [], ◌∷◌}
use text.Mathlib.Text.{is_lt, ◌==◌ as str_eq}
use proxy_fleet.Common.Tests.{if◌then◌else◌}

module _ {ℓ} {V : Type ℓ} where
  abbrev pub get : String → List (String × V) → Option V
  get key [] = none
  get key ((k, v) ∷ rest) = let other = get key rest in if str_eq key k then some v else other

  unfoldable pub insert : String → V → List (String × V) → List (String × V)
  insert key value [] = (key, value) ∷ []
  insert key value ((k, v) ∷ rest) =
      let others = insert key value rest in
      if str_eq key k
      then (k, value) ∷ rest
      else if is_lt (compare key k)
      then (key, value) ∷ (k, v) ∷ rest
      else (k, v) ∷ others

  unfoldable pub remove : String → List (String × V) → List (String × V)
  remove key [] = []
  remove key ((k, v) ∷ rest) =
      let others = remove key rest in if str_eq key k then rest else (k, v) ∷ others

  -- `collect` of pairs
  unfoldable pub from_pairs : List (String × V) → List (String × V) → List (String × V)
  unfolding insert
  from_pairs [] map = map
  from_pairs ((k, v) ∷ rest) map = from_pairs rest (insert k v map)
