-- ===== src/Server/Shadow/Driver/Rows.antt =====
-- harvest_shadow.rs: what becomes of the rows of the table of verdicts.
use bigtop.Common.{
  ◌≡◌, ◌≢◌, inl, inr, refl, sym, ap, ◌∙◌, subst, true, false, List, [], ◌∷◌, ◌++◌, arith,
  Bool-cases, String, ◌==◌, eq_iff, All, filter, map,
}
use bigtop.Common.Distinct.{Distinct}
use bigtop.Server.Shadow.Driver.{Row, is_pending, set_verdict}

-- `y` is what became of `x`.
abbrev pub KeptRow : Row → Row → Type 0
KeptRow x y =
    (y.snapshot_id ≡ x.snapshot_id)
    × (y.execution_id ≡ x.execution_id)
    × (y.task_id ≡ x.task_id)
    × (is_pending x ≡ false → y ≡ x)

-- Every row is kept, in its place, and there may be more behind them.
abbrev pub Kept : List Row → List Row → Type 0
Kept [] ys = Unit
Kept (x ∷ xs) [] = ⊥
Kept (x ∷ xs) (y ∷ ys) = KeptRow x y × Kept xs ys

pub Kept-refl : (xs : List Row) → Kept xs xs
Kept-refl [] = tt
Kept-refl (x ∷ xs) = ((refl, refl, refl, λ _. refl), Kept-refl xs)

KeptRow-trans : (x y z : Row) → KeptRow x y → KeptRow y z → KeptRow x z
KeptRow-trans x y z h k = (
  k.0 ∙ h.0,
  k.1 ∙ h.1,
  k.2 ∙ h.2,
  λ settled. k.3 (ap is_pending (h.3 settled) ∙ settled) ∙ h.3 settled,
)

pub Kept-trans : (xs ys zs : List Row) → Kept xs ys → Kept ys zs → Kept xs zs
Kept-trans [] ys zs h k = tt
Kept-trans (x ∷ xs) [] zs h k = absurd h
Kept-trans (x ∷ xs) (y ∷ ys) [] h k = absurd k
Kept-trans (x ∷ xs) (y ∷ ys) (z ∷ zs) h k =
    (KeptRow-trans x y z h.0 k.0, Kept-trans xs ys zs h.1 k.1)

pub Kept-append : (xs zs : List Row) → Kept xs (xs ++ zs)
Kept-append [] zs = tt
Kept-append (x ∷ xs) zs = ((refl, refl, refl, λ _. refl), Kept-append xs zs)

-- Every row of the snapshot is pending.
abbrev pub Open : String → List Row → Type 0
Open id rows = All (λ r. r.snapshot_id ≡ id → is_pending r ≡ true) rows

KeptRow-set_verdict :
    (id verdict json detail now : String) (x y : Row)
    → (x.snapshot_id ≡ id → is_pending x ≡ true)
    → KeptRow x y
    → KeptRow x (set_verdict id verdict json detail now y)
unfolding set_verdict
KeptRow-set_verdict id verdict json detail now x y p h = elim (Bool-cases (y.snapshot_id == id)) [
  | inl hit ↦
      rw hit (
        h.0,
        h.1,
        h.2,
        λ settled. absurd (ground (arith, p (sym h.0 ∙ (eq_iff _ _).0 hit), settled)),
      )
  | inr miss ↦ rw miss h
]

pub Kept-set_verdict :
    (id verdict json detail now : String) (xs ys : List Row)
    → Open id xs
    → Kept xs ys
    → Kept xs (map (set_verdict id verdict json detail now) ys)
Kept-set_verdict id verdict json detail now [] ys p h = tt
Kept-set_verdict id verdict json detail now (x ∷ xs) [] p h = absurd h
Kept-set_verdict id verdict json detail now (x ∷ xs) (y ∷ ys) p h = (
  KeptRow-set_verdict id verdict json detail now x y p.0 h.0,
  Kept-set_verdict id verdict json detail now xs ys p.1 h.1,
)

abbrev pub ids : List Row → List String
ids rows = map (λ r. r.snapshot_id) rows

-- No snapshot has two rows.
abbrev pub OneRow : List Row → Type 0
OneRow rows = Distinct (ids rows)

pub ids-set_verdict :
    (id verdict json detail now : String) (rows : List Row)
    → ids (map (set_verdict id verdict json detail now) rows) ≡ ids rows
unfolding set_verdict
ids-set_verdict id verdict json detail now [] = refl
ids-set_verdict id verdict json detail now (r ∷ rows) =
    ground (arith, ids-set_verdict id verdict json detail now rows)

-- The rows of a pending row's snapshot are pending.
Open-later :
    (r : Row) (rows : List Row)
    → is_pending r ≡ true
    → All (λ y. y ≢ r.snapshot_id) (ids rows)
    → Open r.snapshot_id (r ∷ rows)
Open-later r [] p h = ((λ _. p), tt)
Open-later r (x ∷ rows) p h = ((λ _. p), ((λ e. absurd (h.0 e)), (Open-later r rows p h.1).1))

-- What a sweep may update: the rows of the snapshots that it selected are pending.
abbrev pub Selected : List (String × String) → List Row → Type 0
Selected pending rows = All (λ p. Open p.0 rows) pending

unfoldable pub selected : List Row → List (String × String)
selected rows = map (λ r. (r.snapshot_id, r.execution_id)) (filter is_pending rows)

Selected-cons :
    (x : Row) (rows : List Row) (pending : List (String × String))
    → All (λ p. p.0 ≢ x.snapshot_id) pending
    → Selected pending rows
    → Selected pending (x ∷ rows)
Selected-cons x rows [] n h = tt
Selected-cons x rows (p ∷ pending) n h =
    (((λ e. absurd (n.0 (sym e))), h.0), Selected-cons x rows pending n.1 h.1)

ne-selected :
    (id : String) (rows : List Row)
    → All (λ y. y ≢ id) (ids rows)
    → All (λ p. p.0 ≢ id) (selected rows)
unfolding selected
ne-selected id [] h = tt
ne-selected id (r ∷ rows) h = elim (Bool-cases (is_pending r)) [
  | inl p ↦ rw p (h.0, ne-selected id rows h.1)
  | inr settled ↦ rw settled (ne-selected id rows h.1)
]

pub selected_pending :
    (r : Row) (rows : List Row)
    → is_pending r ≡ true
    → selected (r ∷ rows) ≡ (r.snapshot_id, r.execution_id) ∷ selected rows
unfolding selected
selected_pending r rows h = rw h

pub selected_settled :
    (r : Row) (rows : List Row) → is_pending r ≡ false → selected (r ∷ rows) ≡ selected rows
unfolding selected
selected_settled r rows h = rw h

pub Selected-selected : (rows : List Row) → OneRow rows → Selected (selected rows) rows
unfolding selected
Selected-selected [] u = tt
Selected-selected (r ∷ rows) u =
    let rest =
      Selected-cons r rows (selected rows) (ne-selected r.snapshot_id rows u.0)
        (Selected-selected rows u.1) in
    elim (Bool-cases (is_pending r)) [
      | inl p ↦
          subst (λ l. Selected l (r ∷ rows)) (sym (selected_pending r rows p))
            (Open-later r rows p u.0, rest)
      | inr settled ↦
          subst (λ l. Selected l (r ∷ rows)) (sym (selected_settled r rows settled)) rest
    ]
