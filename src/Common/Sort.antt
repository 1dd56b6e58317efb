-- ===== src/Common/Sort.antt =====
-- Rust's `sort_by`, which is stable, as an insertion sort, and the order of a `BTreeMap`.
use Prim.Native.String.{String, compare}
use mathlib.Core.Bool.{Bool}
use mathlib.Core.List.{List, [], ◌∷◌}
use text.Mathlib.Text.{is_le}
use Prim.Native.Nat.{Ordering}
use bigtop.Common.Tests.{if◌then◌else◌}

module _ {ℓ} {A : Type ℓ} (le : A → A → Bool) where
  -- `x` goes in front of the first element that it is at most.
  unfoldable pub insert_by : A → List A → List A
  insert_by x [] = x ∷ []
  insert_by x (y ∷ ys) = if le x y then x ∷ y ∷ ys else y ∷ insert_by x ys

  unfoldable pub sort_by : List A → List A
  unfolding insert_by
  sort_by [] = []
  sort_by (x ∷ xs) = insert_by x (sort_by xs)

-- `str::le`
abbrev pub le_str : String → String → Bool
le_str a b = is_le (compare a b)

-- `Vec<String>::sort`
unfoldable pub sort : List String → List String
unfolding sort_by
sort = sort_by le_str

-- `BTreeMap::insert`: the keys stay in ascending order.
unfoldable pub btree_insert {ℓ} : {V : Type ℓ} → String → V → List (String × V) → List (String × V)
btree_insert k v [] = (k, v) ∷ []
btree_insert k v ((j, w) ∷ m) = elim (compare k j) [
  | Ordering.lt ↦ (k, v) ∷ (j, w) ∷ m
  | Ordering.eq ↦ (j, v) ∷ m
  | Ordering.gt ↦ (j, w) ∷ btree_insert k v m
]
