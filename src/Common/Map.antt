-- ===== src/Common/Map.antt =====
-- `std::collections::HashMap` with text keys: entries in the order in which the map is iterated.
-- A new key goes to the end, a key that is there keeps its place.
use mathlib.Core.Path.{◌≡◌, refl}
use mathlib.Core.Logic.{◌⊎◌, ◌≢◌, inl, inr}
use mathlib.Core.Bool.{Bool, true}
use mathlib.Core.Option.{Option, none, some}
use mathlib.Core.List.{List, [], ◌∷◌, map}
use Prim.Native.String.{String}
use native.Mathlib.Omega.{arith}
use text.Mathlib.Text.{◌==◌}
use text.Mathlib.TextEquality.{eq_iff}
use bigtop.Common.Lists.{any, All, All-map}
use bigtop.Common.Tests.{Bool-cases, if◌then◌else◌, is_some, Option-cases}

abbrev pub HashMap {ℓ} : Type ℓ → Type ℓ
HashMap V = List (String × V)

module _ {ℓ} {V : Type ℓ} where
  -- `map.get(k)`
  unfoldable pub get : String → HashMap V → Option V
  get k [] = none
  get k ((j, v) ∷ m) = if j == k then some v else get k m

  -- `map.insert(k, v)`
  unfoldable pub insert : String → V → HashMap V → HashMap V
  insert k v [] = (k, v) ∷ []
  insert k v ((j, w) ∷ m) = if j == k then (j, v) ∷ m else (j, w) ∷ insert k v m

  -- `map.remove(k)`
  unfoldable pub remove : String → HashMap V → HashMap V
  remove k [] = []
  remove k ((j, v) ∷ m) = let rest = remove k m in if j == k then rest else (j, v) ∷ rest

  -- `map.values()`
  abbrev pub values : HashMap V → List V
  values m = map (λ e. e.1) m

  -- `map.contains_key(k)`
  abbrev pub contains_key : String → HashMap V → Bool
  contains_key k m = is_some (get k m)

  pub get-insert :
      (k j : String) (v : V) (m : HashMap V)
      → get j (insert k v m) ≡ (if k == j then some v else get j m)
  unfolding get insert
  get-insert k j v [] = refl
  get-insert k j v ((i, w) ∷ m) =
      ground (arith, eq_iff k j, eq_iff i k, eq_iff i j, get-insert k j v m)

  pub get-remove :
      (k j : String) (m : HashMap V) → get j (remove k m) ≡ (if k == j then none else get j m)
  unfolding get remove
  get-remove k j [] = ground arith
  get-remove k j ((i, w) ∷ m) = ground (arith, eq_iff k j, eq_iff i k, eq_iff i j, get-remove k j m)

  -- Writing back what is there changes nothing.
  pub insert_same : (k : String) (v : V) (m : HashMap V) → get k m ≡ some v → insert k v m ≡ m
  unfolding get insert
  insert_same k v [] h = ground arith
  insert_same k v ((i, w) ∷ m) h = ground (arith, insert_same k v m)

  pub remove_absent : (k : String) (m : HashMap V) → get k m ≡ none → remove k m ≡ m
  unfolding get remove
  remove_absent k [] h = refl
  remove_absent k ((i, w) ∷ m) h = ground (arith, remove_absent k m)

  -- A value that a map holds is among its values.
  pub any-values :
      (p : V → Bool) (k : String) (m : HashMap V) (v : V)
      → get k m ≡ some v
      → p v ≡ true
      → any p (values m) ≡ true
  unfolding get
  any-values p k [] v h q = cc
  any-values p k ((j, w) ∷ m) v h q = ground (arith, any-values p k m v)

  -- No key stands twice: what every `HashMap` guarantees.
  abbrev pub UniqueKeys : HashMap V → Type ℓ
  UniqueKeys [] = Unit
  UniqueKeys ((k, v) ∷ m) = (get k m ≡ none) × UniqueKeys m

  pub UniqueKeys-insert :
      (k : String) (v : V) (m : HashMap V) → UniqueKeys m → UniqueKeys (insert k v m)
  unfolding get insert
  UniqueKeys-insert k v [] u = (refl, tt)
  UniqueKeys-insert k v ((j, w) ∷ m) u =
      ground (arith, UniqueKeys-insert k v m, get-insert k j v m, eq_iff k j)

  pub UniqueKeys-remove : (k : String) (m : HashMap V) → UniqueKeys m → UniqueKeys (remove k m)
  unfolding get remove
  UniqueKeys-remove k [] u = tt
  UniqueKeys-remove k ((j, w) ∷ m) u =
      ground (arith, UniqueKeys-remove k m, get-remove k j m, eq_iff k j)

  -- What holds of every entry that can be looked up holds of every entry that is iterated over.
  pub All-entries {κ} :
      (P : String × V → Type κ) (m : HashMap V)
      → UniqueKeys m
      → ((k : String) (v : V) → get k m ≡ some v → P (k, v))
      → All P m
  unfolding get
  All-entries P [] u h = tt
  All-entries P ((j, w) ∷ m) u h = (
    h j w (ground (arith, eq_iff j j)),
    All-entries P m u.1 λ k v g. h k v (ground (arith, eq_iff j k)),
  )

  pub All-values {κ} :
      (P : V → Type κ) (m : HashMap V)
      → UniqueKeys m
      → ((k : String) (v : V) → get k m ≡ some v → P v)
      → All P (values m)
  All-values P m u h = All-map P (λ e. e.1) m (All-entries (λ e. P e.1) m u h)

  -- Removing a key that was just added undoes the insertion.
  pub remove-insert :
      (k : String) (v : V) (m : HashMap V) → get k m ≡ none → remove k (insert k v m) ≡ m
  unfolding get insert remove
  remove-insert k v [] h = ground (arith, eq_iff k k)
  remove-insert k v ((j, w) ∷ m) h = ground (arith, remove-insert k v m)

  pub get-insert_self : (k : String) (v : V) (m : HashMap V) → get k (insert k v m) ≡ some v
  get-insert_self k v m = ground (arith, get-insert k k v m, eq_iff k k)

  pub get-insert_ne :
      (k j : String) (v : V) (m : HashMap V) → j ≢ k → get j (insert k v m) ≡ get j m
  get-insert_ne k j v m h = ground (arith, get-insert k j v m, eq_iff k j)

  -- What is looked up behind an insertion is the new value, or was there before.
  pub get-insert_inv :
      (k j : String) (v w : V) (m : HashMap V)
      → get j (insert k v m) ≡ some w
      → ((k ≡ j) × (v ≡ w)) ⊎ (get j m ≡ some w)
  get-insert_inv k j v w m h = elim (Bool-cases (k == j)) [
    | inl same ↦ inl ((eq_iff k j).0 same, ground (arith, get-insert k j v m))
    | inr other ↦ inr (ground (arith, get-insert k j v m))
  ]

module _ {ℓ κ} {V : Type ℓ} {W : Type κ} (f : V → W) where
  -- The same entries, each value replaced.
  abbrev pub map_values : HashMap V → HashMap W
  map_values m = map (λ e. (e.0, f e.1)) m

  pub map_values-insert :
      (k : String) (v : V) (m : HashMap V)
      → map_values (insert k v m) ≡ insert k (f v) (map_values m)
  unfolding insert
  map_values-insert k v [] = refl
  map_values-insert k v ((j, w) ∷ m) = ground (arith, map_values-insert k v m)

  pub get-map_values :
      (k : String) (m : HashMap V) (v : V) → get k m ≡ some v → get k (map_values m) ≡ some (f v)
  unfolding get
  get-map_values k [] v h = cc
  get-map_values k ((j, w) ∷ m) v h = ground (arith, get-map_values k m v)

  pub get-map_values-none :
      (k : String) (m : HashMap V) → get k m ≡ none → get k (map_values m) ≡ none
  unfolding get
  get-map_values-none k [] h = refl
  get-map_values-none k ((j, w) ∷ m) h = ground (arith, get-map_values-none k m)

  pub UniqueKeys-map_values : (m : HashMap V) → UniqueKeys m → UniqueKeys (map_values m)
  UniqueKeys-map_values [] u = tt
  UniqueKeys-map_values ((j, w) ∷ m) u = (get-map_values-none j m u.0, UniqueKeys-map_values m u.1)

  -- What is looked up in such a map comes from an entry.
  pub get-map_values_inv :
      (k : String) (m : HashMap V) (w : W)
      → get k (map_values m) ≡ some w
      → (v : V) × (get k m ≡ some v) × (w ≡ f v)
  get-map_values_inv k m w h = elim (Option-cases (get k m)) [
    | inl missing ↦ absurd (ground (arith, get-map_values-none k m missing))
    | inr (v, found) ↦ (v, found, ground (arith, get-map_values k m v found))
  ]
