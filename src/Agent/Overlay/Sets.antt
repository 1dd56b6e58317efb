-- ===== src/Agent/Overlay/Sets.antt =====
-- overlay.rs: the set operations on forwarding entries.
use bigtop.Common.{
  ◌≡◌, refl, ap, sym, Bool, true, not, ◌&&◌, ◌||◌, List, [], ◌∷◌, ◌++◌, filter, arith, Bool-cases,
  inl, inr,
}
use bigtop.Agent.Overlay.{FdbEntry, same, has, add, drop_entry, difference, to_set}

pub same_refl : (a : FdbEntry) → same a a ≡ true
unfolding same
same_refl a = ground arith

pub same-eq : (a b : FdbEntry) → same a b ≡ true → a ≡ b
unfolding same
same-eq a b h = ground arith

-- Whoever equals an entry is in the same sets.
has-same : (a b : FdbEntry) (set : List FdbEntry) → same a b ≡ true → has b set ≡ has a set
has-same a b set h = ap (λ e. has e set) (sym (same-eq a b h))

has-append : (e : FdbEntry) (xs ys : List FdbEntry) → has e (xs ++ ys) ≡ (has e xs || has e ys)
has-append e [] ys = refl
has-append e (x ∷ xs) ys = ground (arith, has-append e xs ys)

pub has-add : (e x : FdbEntry) (set : List FdbEntry) → has e (add x set) ≡ (same e x || has e set)
unfolding add
has-add e x set = elim (Bool-cases (has x set)) [
  | inl there ↦ rw there (ground (arith, has-same e x set))
  | inr new ↦ rw new (ground (arith, has-append e set (x ∷ [])))
]

-- A filter that does not tell equal entries apart.
has-filter :
    (p : FdbEntry → Bool) (e : FdbEntry) (set : List FdbEntry)
    → has e (filter p set) ≡ (has e set && p e)
has-filter p e [] = refl
has-filter p e (x ∷ set) = elim (Bool-cases (same e x)) [
  | inl equal ↦ let q : p e ≡ p x = ap p (same-eq e x equal) in ground (arith, has-filter p e set)
  | inr other ↦ ground (arith, has-filter p e set)
]

pub has-drop_entry :
    (e x : FdbEntry) (set : List FdbEntry)
    → has e (drop_entry x set) ≡ (has e set && not (same x e))
unfolding drop_entry
has-drop_entry e x set = has-filter (λ y. not (same x y)) e set

pub has-difference :
    (e : FdbEntry) (a b : List FdbEntry) → has e (difference a b) ≡ (has e a && not (has e b))
unfolding difference
has-difference e a b = has-filter (λ y. not (has y b)) e a

pub has-to_set : (e : FdbEntry) (es : List FdbEntry) → has e (to_set es) ≡ has e es
unfolding to_set
has-to_set e [] = refl
has-to_set e (x ∷ es) = ground (arith, has-add e x (to_set es), has-to_set e es)

-- Nothing is left of a set without its supersets.
pub difference-empty :
    (a b : List FdbEntry) → ((e : FdbEntry) → has e a ≡ true → has e b ≡ true) → difference a b ≡ []
unfolding difference
difference-empty a b h = none_left a λ e k. h e k
  where
    none_left :
        (c : List FdbEntry)
        → ((e : FdbEntry) → has e c ≡ true → has e b ≡ true)
        → filter (λ e. not (has e b)) c ≡ []
    none_left [] k = refl
    none_left (x ∷ c) k =
        rw (k x (ground (arith, same_refl x))) (none_left c λ e i. k e (ground arith))
