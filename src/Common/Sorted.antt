-- ===== src/Common/Sorted.antt =====
-- What `sort_by` returns: the same elements, in order.
use mathlib.Core.Path.{◌≡◌}
use mathlib.Core.Logic.{inl, inr}
use mathlib.Core.Bool.{Bool, true, false}
use mathlib.Core.List.{List, [], ◌∷◌}
use bigtop.Common.Tests.{Bool-cases}
use bigtop.Common.Lists.{filter}
use bigtop.Common.Sort.{insert_by, sort_by}

-- `x` is an element of the list.
pub data In {ℓ} {A : Type ℓ} (x : A) : List A → Type ℓ where
  first : {xs : List A} → In x (x ∷ xs)
  later : {y : A} {xs : List A} → In x xs → In x (y ∷ xs)

module _ {ℓ} {A : Type ℓ} (le : A → A → Bool) where
  -- Each element is at most the next one.
  abbrev pub Sorted : List A → Type 0
  Sorted [] = Unit
  Sorted (x ∷ []) = Unit
  Sorted (x ∷ y ∷ ys) = (le x y ≡ true) × Sorted (y ∷ ys)

  In-insert_by_new : (x : A) (ys : List A) → In x (insert_by le x ys)
  unfolding insert_by
  In-insert_by_new x [] = In.first
  In-insert_by_new x (y ∷ ys) = elim (Bool-cases (le x y)) [
    | inl small ↦ rw small In.first
    | inr large ↦ rw large (In.later (In-insert_by_new x ys))
  ]

  In-insert_by_old : (x y : A) (ys : List A) → In y ys → In y (insert_by le x ys)
  unfolding insert_by
  In-insert_by_old x y _ (In.first {xs}) = elim (Bool-cases (le x y)) [
    | inl small ↦ rw small (In.later In.first)
    | inr large ↦ rw large In.first
  ]
  In-insert_by_old x y _ (In.later {y = z} {xs} h) = elim (Bool-cases (le x z)) [
    | inl small ↦ rw small (In.later (In.later h))
    | inr large ↦ rw large (In.later (In-insert_by_old x y xs h))
  ]

  pub In-sort_by : (y : A) (xs : List A) → In y xs → In y (sort_by le xs)
  unfolding sort_by
  In-sort_by y _ (In.first {xs}) = In-insert_by_new y (sort_by le xs)
  In-sort_by y _ (In.later {y = x} {xs} h) =
      In-insert_by_old x y (sort_by le xs) (In-sort_by y xs h)

  module _ (total : (a b : A) → le a b ≡ false → le b a ≡ true) where
    -- In front of what `x` is inserted into stands something that is at most `x`.
    Sorted-after :
        (x y : A) (ys : List A)
        → le y x ≡ true
        → Sorted (y ∷ ys)
        → Sorted (insert_by le x ys)
        → Sorted (y ∷ insert_by le x ys)
    unfolding insert_by
    Sorted-after x y [] h s t = (h, tt)
    Sorted-after x y (z ∷ ys) h s t = elim (Bool-cases (le x z)) [
      | inl small ↦ rw small (h, rw (small, insert_by) at t)
      | inr large ↦ rw large (s.0, rw (large, insert_by) at t)
    ]

    Sorted-insert_by : (x : A) (ys : List A) → Sorted ys → Sorted (insert_by le x ys)
    unfolding insert_by
    Sorted-insert_by x [] s = tt
    Sorted-insert_by x (y ∷ []) s = elim (Bool-cases (le x y)) [
      | inl small ↦ rw small (small, tt)
      | inr large ↦ rw large (total x y large, tt)
    ]
    Sorted-insert_by x (y ∷ z ∷ ys) s = elim (Bool-cases (le x y)) [
      | inl small ↦ rw small (small, s)
      | inr large ↦
          rw large (Sorted-after x y (z ∷ ys) (total x y large) s (Sorted-insert_by x (z ∷ ys) s.1))
    ]

    pub Sorted-sort_by : (xs : List A) → Sorted (sort_by le xs)
    unfolding sort_by
    Sorted-sort_by [] = tt
    Sorted-sort_by (x ∷ xs) = Sorted-insert_by x (sort_by le xs) (Sorted-sort_by xs)

pub In-filter {ℓ} :
    {A : Type ℓ} (p : A → Bool) (x : A) (xs : List A) → p x ≡ true → In x xs → In x (filter p xs)
In-filter p x _ pass (In.first {xs}) = rw pass In.first
In-filter p x _ pass (In.later {y} {xs} h) = elim (Bool-cases (p y)) [
  | inl keep ↦ rw keep (In.later (In-filter p x xs pass h))
  | inr drop ↦ rw drop (In-filter p x xs pass h)
]
