-- ===== src/Common/Distinct.antt =====
-- Lists of texts without repetition: the keys of a map, filtered and sorted.
use Prim.Native.String.{String}
use mathlib.Core.Path.{◌≡◌, sym}
use mathlib.Core.Logic.{◌≢◌, inl, inr}
use mathlib.Core.Bool.{Bool}
use mathlib.Core.Option.{none}
use mathlib.Core.List.{List, [], ◌∷◌, map}
use native.Mathlib.Omega.{arith}
use text.Mathlib.TextEquality.{eq_iff}
use bigtop.Common.Tests.{Bool-cases}
use bigtop.Common.Lists.{All, filter}
use bigtop.Common.Map.{HashMap, get, UniqueKeys}
use bigtop.Common.Sort.{insert_by, sort_by, sort, le_str}

abbrev pub Distinct : List String → Type 0
Distinct [] = Unit
Distinct (x ∷ xs) = All (λ y. y ≢ x) xs × Distinct xs

module _ {ℓ κ} {A : Type ℓ} (le : A → A → Bool) (P : A → Type κ) where
  All-insert_by : (x : A) (ys : List A) → P x → All P ys → All P (insert_by le x ys)
  unfolding insert_by
  All-insert_by x [] p h = (p, tt)
  All-insert_by x (y ∷ ys) p h = elim (Bool-cases (le x y)) [
    | inl before ↦ rw before (p, (h.0, h.1))
    | inr after ↦ rw after (h.0, All-insert_by x ys p h.1)
  ]

  -- Sorting keeps what holds of every element.
  pub All-sort_by : (xs : List A) → All P xs → All P (sort_by le xs)
  unfolding sort_by
  All-sort_by [] h = tt
  All-sort_by (x ∷ xs) h = All-insert_by x (sort_by le xs) h.0 (All-sort_by xs h.1)

Distinct-insert_by :
    (x : String) (ys : List String)
    → All (λ y. y ≢ x) ys
    → Distinct ys
    → Distinct (insert_by le_str x ys)
unfolding insert_by
Distinct-insert_by x [] h d = (tt, tt)
Distinct-insert_by x (y ∷ ys) h d = elim (Bool-cases (le_str x y)) [
  | inl before ↦ rw before ((h.0, h.1), (d.0, d.1))
  | inr after ↦ rw after (
    All-insert_by le_str (λ z. z ≢ y) x ys (λ e. h.0 (sym e)) d.0,
    Distinct-insert_by x ys h.1 d.1,
  )
]

pub Distinct-sort : (xs : List String) → Distinct xs → Distinct (sort xs)
unfolding sort sort_by
Distinct-sort [] d = tt
Distinct-sort (x ∷ xs) d =
    Distinct-insert_by x (sort_by le_str xs) (All-sort_by le_str (λ y. y ≢ x) xs d.0)
      (Distinct-sort xs d.1)

module _ {ℓ} {V : Type ℓ} where
  -- An absent key is no key of a filtered map.
  absent-keys :
      (p : String × V → Bool) (k : String) (m : HashMap V)
      → get k m ≡ none
      → All (λ y. y ≢ k) (map (λ e. e.0) (filter p m))
  unfolding get
  absent-keys p k [] h = tt
  absent-keys p k ((j, w) ∷ m) h = elim (Bool-cases (p (j, w))) [
    | inl pass ↦ rw pass ((λ e. ground (arith, eq_iff j k)), absent-keys p k m (ground arith))
    | inr fail ↦ rw fail (absent-keys p k m (ground arith))
  ]

  pub Distinct-keys :
      (p : String × V → Bool) (m : HashMap V)
      → UniqueKeys m
      → Distinct (map (λ e. e.0) (filter p m))
  Distinct-keys p [] u = tt
  Distinct-keys p ((j, w) ∷ m) u = elim (Bool-cases (p (j, w))) [
    | inl pass ↦ rw pass (absent-keys p j m u.0, Distinct-keys p m u.1)
    | inr fail ↦ rw fail (Distinct-keys p m u.1)
  ]
