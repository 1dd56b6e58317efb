-- ===== src/Common/Order.antt =====
-- Rust's `Ord` on texts (`str::cmp`): a strict total order.
use Prim.Native.Nat.{ℕ, Ordering, compare as compare_ℕ}
use Prim.Native.Char.{code}
use Prim.Native.String.{String, compare, then}
use Prim.Native.String.compare
use mathlib.Core.Path.{◌≡◌}
use mathlib.Core.Logic.{◌⊎◌}
use native.Mathlib.Omega.{arith}

-- `Ordering::reverse`
abbrev pub reverse : Ordering → Ordering
reverse Ordering.lt = Ordering.gt
reverse Ordering.eq = Ordering.eq
reverse Ordering.gt = Ordering.lt

pub compare_swap : (s t : String) → compare t s ≡ reverse (compare s t)
compare_swap String.[] String.[] = rw compare.nil-nil
compare_swap String.[] (String.◌∷◌ d t) = rw (compare.nil-cons, compare.cons-nil)
compare_swap (String.◌∷◌ c s) String.[] = rw (compare.nil-cons, compare.cons-nil)
compare_swap (String.◌∷◌ c s) (String.◌∷◌ d t) =
    rw (compare.cons-cons c d s t, compare.cons-cons d c t s, compare_swap s t) (ground arith)

-- What three comparisons, of the first with the second, the second with the third and the first with
-- the third, say of each other.
abbrev pub Chained : Ordering → Ordering → Ordering → Type 0
Chained o p q = (o ≡ Ordering.gt) ⊎ ((p ≡ Ordering.gt) ⊎ (q ≡ then o p))

pub Chained-then :
    (o p q o' p' q' : Ordering)
    → Chained o p q
    → Chained o' p' q'
    → Chained (then o o') (then p p') (then q q')
Chained-then o p q o' p' q' h k = ground arith

Chained-compare_ℕ : (m n k : ℕ) → Chained (compare_ℕ m n) (compare_ℕ n k) (compare_ℕ m k)
Chained-compare_ℕ m n k = ground arith

pub Chained-compare : (s t u : String) → Chained (compare s t) (compare t u) (compare s u)
Chained-compare String.[] String.[] u = ground (arith, compare.nil-nil)
Chained-compare String.[] (String.◌∷◌ d t) String.[] = ground (arith, compare.cons-nil d t)
Chained-compare String.[] (String.◌∷◌ d t) (String.◌∷◌ e u) =
    ground (arith, compare.nil-cons d t, compare.nil-cons e u)
Chained-compare (String.◌∷◌ c s) String.[] u = ground (arith, compare.cons-nil c s)
Chained-compare (String.◌∷◌ c s) (String.◌∷◌ d t) String.[] = ground (arith, compare.cons-nil d t)
Chained-compare (String.◌∷◌ c s) (String.◌∷◌ d t) (String.◌∷◌ e u) =
    rw (compare.cons-cons c d s t, compare.cons-cons d e t u, compare.cons-cons c e s u)
      (Chained-then _ _ _ _ _ _ (Chained-compare_ℕ (code c) (code d) (code e))
        (Chained-compare s t u))
