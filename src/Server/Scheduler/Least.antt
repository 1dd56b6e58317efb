-- ===== src/Server/Scheduler/Least.antt =====
-- scheduler.rs: the order of `cmp_load` and of the ids, and the least node in it.
use Prim.Native.Nat.{compare as compare_ℕ}
use Prim.Native.String.{compare}
use bigtop.Common.{
  ℕ, ◌+◌, ◌*◌, ◌<◌, ◌≤◌, ◌≡◌, ◌≢◌, ◌⊎◌, inl, inr, refl, true, false, Bool, List, [], ◌∷◌, All,
  Ordering, arith,
}
use native.Mathlib.Nat.{
  mul-le-mul_right, mul-lt-mul_of_pos_right, mul_right_comm, le_of_mul-le-mul_right,
  lt_of_mul-lt-mul_right,
}
use bigtop.Common.Order.{reverse, compare_swap, Chained, Chained-then, Chained-compare}
use mathlib.Core.List.{foldl}
use bigtop.Core.Types.{NodeInfo}
use bigtop.Server.Scheduler.Pick.{then, usable, cmp_usable, cmp_cases, cmp_load, cmp_node, better}

-- Loads are compared as fractions: what two comparisons of cross products say of the third.
load_le : (u v w a b c : ℕ) → 0 < b → u * b ≤ v * a → v * c ≤ w * b → u * c ≤ w * a
load_le u v w a b c hb h k =
    le_of_mul-le-mul_right
      (omega (
        arith,
        mul-le-mul_right c h,
        mul-le-mul_right a k,
        mul_right_comm u b c,
        mul_right_comm v a c,
        mul_right_comm w b a,
      ))
      hb

load_lt :
    (u v w a b c : ℕ)
    → 0 < a
    → 0 < c
    → u * b ≤ v * a
    → v * c ≤ w * b
    → (u * b < v * a) ⊎ (v * c < w * b)
    → u * c < w * a
load_lt u v w a b c ha hc h k s =
    lt_of_mul-lt-mul_right b
      (omega (arith, strict s, mul_right_comm u b c, mul_right_comm v a c, mul_right_comm w b a))
  where
    strict : (u * b < v * a) ⊎ (v * c < w * b) → u * b * c + v * c * a < v * a * c + w * b * a
    strict (inl l) = omega (arith, mul-lt-mul_of_pos_right l hc, mul-le-mul_right a k)
    strict (inr l) = omega (arith, mul-le-mul_right c h, mul-lt-mul_of_pos_right l ha)

Chained-load :
    (u v w a b c : ℕ)
    → 0 < a
    → 0 < b
    → 0 < c
    → Chained (compare_ℕ (u * b) (v * a)) (compare_ℕ (v * c) (w * b)) (compare_ℕ (u * c) (w * a))
Chained-load u v w a b c ha hb hc =
    ground (arith, load_le u v w a b c hb, load_le w v u c b a hb, load_lt u v w a b c ha hc)

-- ---------------------------------------------------------------- the order of the nodes

Chained-cmp_usable :
    (x y z : NodeInfo)
    → usable x ≡ true
    → usable y ≡ true
    → usable z ≡ true
    → Chained (cmp_usable x y) (cmp_usable y z) (cmp_usable x z)
Chained-cmp_usable x y z hx hy hz =
    Chained-then _ _ _ _ _ _
      (Chained-load x.used.cpu_millis y.used.cpu_millis z.used.cpu_millis x.total.cpu_millis
        y.total.cpu_millis z.total.cpu_millis (ground arith) (ground arith) (ground arith))
      (Chained-load x.used.mem_mb y.used.mem_mb z.used.mem_mb x.total.mem_mb y.total.mem_mb
        z.total.mem_mb (ground arith) (ground arith) (ground arith))

Chained-cmp_cases :
    (i j k : Bool) (o p q : Ordering)
    → (i ≡ true → j ≡ true → k ≡ true → Chained o p q)
    → Chained (cmp_cases i j o) (cmp_cases j k p) (cmp_cases i k q)
Chained-cmp_cases true true true o p q h = h refl refl refl
Chained-cmp_cases true true false o p q h = ground arith
Chained-cmp_cases true false true o p q h = ground arith
Chained-cmp_cases true false false o p q h = ground arith
Chained-cmp_cases false true k o p q h = ground arith
Chained-cmp_cases false false true o p q h = ground arith
Chained-cmp_cases false false false o p q h = ground arith

Chained-cmp_node : (x y z : NodeInfo) → Chained (cmp_node x y) (cmp_node y z) (cmp_node x z)
unfolding cmp_node cmp_load
Chained-cmp_node x y z =
    Chained-then _ _ _ _ _ _
      (Chained-cmp_cases (usable x) (usable y) (usable z) _ _ _ (Chained-cmp_usable x y z))
      (Chained-compare x.id y.id z.id)

reverse-then : (o p : Ordering) → reverse (then o p) ≡ then (reverse o) (reverse p)
reverse-then o p = ground arith

reverse-compare_ℕ : (m n : ℕ) → compare_ℕ n m ≡ reverse (compare_ℕ m n)
reverse-compare_ℕ m n = ground arith

reverse-cmp_cases :
    (i j : Bool) (o p : Ordering) → p ≡ reverse o → cmp_cases j i p ≡ reverse (cmp_cases i j o)
reverse-cmp_cases i j o p h = ground arith

cmp_node_swap : (x y : NodeInfo) → cmp_node y x ≡ reverse (cmp_node x y)
unfolding cmp_node cmp_load
cmp_node_swap x y =
    rw
      (
        reverse-then (cmp_cases (usable x) (usable y) (cmp_usable x y)) (compare x.id y.id),
        compare_swap x.id y.id,
        reverse-cmp_cases (usable x) (usable y) (cmp_usable x y) (cmp_usable y x) loads,
      )
      refl
  where
    loads : cmp_usable y x ≡ reverse (cmp_usable x y)
    loads =
        rw
          (
            reverse-then
                (compare_ℕ (x.used.cpu_millis * y.total.cpu_millis)
                  (y.used.cpu_millis * x.total.cpu_millis))
                (compare_ℕ (x.used.mem_mb * y.total.mem_mb) (y.used.mem_mb * x.total.mem_mb)),
            reverse-compare_ℕ (x.used.cpu_millis * y.total.cpu_millis)
                (y.used.cpu_millis * x.total.cpu_millis),
            reverse-compare_ℕ (x.used.mem_mb * y.total.mem_mb) (y.used.mem_mb * x.total.mem_mb),
          )
          refl

-- ---------------------------------------------------------------- the least node

-- The first node is not behind the second one.
abbrev pub NotAfter : NodeInfo → NodeInfo → Type 0
NotAfter x y = cmp_node x y ≢ Ordering.gt

NotAfter-refl : (x : NodeInfo) → NotAfter x x
NotAfter-refl x h = ground (arith, cmp_node_swap x x)

NotAfter-trans : (x y z : NodeInfo) → NotAfter x y → NotAfter y z → NotAfter x z
NotAfter-trans x y z h k l = ground (arith, Chained-cmp_node x y z, h, k)

NotAfter-better : (x y : NodeInfo) → NotAfter (better x y) x × NotAfter (better x y) y
unfolding better
NotAfter-better x y = go (cmp_node x y) refl
  where
    kept : Ordering → NodeInfo
    kept o = elim o [ Ordering.gt ↦ y | _ ↦ x ]

    go : (o : Ordering) → cmp_node x y ≡ o → NotAfter (kept o) x × NotAfter (kept o) y
    go Ordering.lt e = (NotAfter-refl x, λ h. ground (arith, e, h))
    go Ordering.eq e = (NotAfter-refl x, λ h. ground (arith, e, h))
    go Ordering.gt e = ((λ h. ground (arith, cmp_node_swap x y, e, h)), NotAfter-refl y)

-- What `min_by` returns stands behind none of the others.
pub NotAfter-foldl :
    (x : NodeInfo) (nodes : List NodeInfo)
    → NotAfter (foldl better x nodes) x × All (NotAfter (foldl better x nodes)) nodes
NotAfter-foldl x [] = (NotAfter-refl x, tt)
NotAfter-foldl x (y ∷ nodes) =
    let (first, rest) = NotAfter-foldl (better x y) nodes in
    let (left, right) = NotAfter-better x y in
    (
      NotAfter-trans _ (better x y) x first left,
      (NotAfter-trans _ (better x y) y first right, rest),
    )
