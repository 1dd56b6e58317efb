-- ===== src/Server/Shadow/Driver/Places.antt =====
-- harvest_shadow.rs: the update of one row among others.
use bigtop.Common.{
  ◌≡◌, ◌≢◌, refl, sym, ap, ◌∙◌, List, [], ◌∷◌, ◌++◌, map, String, All, arith, eq_iff,
}
use bigtop.Server.Shadow.Driver.{Row, set_verdict}
use bigtop.Server.Shadow.Driver.Rows.{OneRow, ids}

abbrev pub with_verdict : Row → String → String → String → String → Row
with_verdict r verdict json detail now = record r {
  verdict = verdict;
  observations_json = json;
  detail = detail;
  updated_at = now;
}

abbrev Apart : String → List Row → Type 0
Apart id rows = All (λ r. r.snapshot_id ≢ id) rows

set_verdict-Apart :
    (id verdict json detail now : String) (rows : List Row)
    → Apart id rows
    → map (set_verdict id verdict json detail now) rows ≡ rows
unfolding set_verdict
set_verdict-Apart id verdict json detail now [] h = refl
set_verdict-Apart id verdict json detail now (r ∷ rows) h =
    ground
      (arith, h.0, eq_iff r.snapshot_id id, set_verdict-Apart id verdict json detail now rows h.1)

set_verdict-own :
    (r : Row) (verdict json detail now : String)
    → set_verdict r.snapshot_id verdict json detail now r ≡ with_verdict r verdict json detail now
unfolding set_verdict
set_verdict-own r verdict json detail now = rw ((eq_iff r.snapshot_id r.snapshot_id).1 refl) refl

ids-Apart : (id : String) (rows : List Row) → All (λ y. y ≢ id) (ids rows) → Apart id rows
ids-Apart id [] h = tt
ids-Apart id (r ∷ rows) h = (h.0, ids-Apart id rows h.1)

All-ids :
    (P : String → Type 0) (front back : List Row) (r : Row)
    → All P (ids (front ++ r ∷ back))
    → P r.snapshot_id
All-ids P [] back r h = h.0
All-ids P (x ∷ front) back r h = All-ids P front back r h.1

-- The other rows of a table without repetition.
OneRow-Apart :
    (front back : List Row) (r : Row)
    → OneRow (front ++ r ∷ back)
    → Apart r.snapshot_id front × Apart r.snapshot_id back
OneRow-Apart [] back r u = (tt, ids-Apart r.snapshot_id back u.0)
OneRow-Apart (x ∷ front) back r u =
    let (before, behind) = OneRow-Apart front back r u.1 in
    ((λ e. All-ids (λ y. y ≢ x.snapshot_id) front back r u.0 (sym e), before), behind)

map-append : (f : Row → Row) (xs ys : List Row) → map f (xs ++ ys) ≡ map f xs ++ map f ys
map-append f [] ys = refl
map-append f (x ∷ xs) ys = ap (λ zs. f x ∷ zs) (map-append f xs ys)

pub updated :
    (verdict json detail now : String) (front back : List Row) (r : Row)
    → OneRow (front ++ r ∷ back)
    → map (set_verdict r.snapshot_id verdict json detail now) (front ++ r ∷ back)
      ≡ front ++ with_verdict r verdict json detail now ∷ back
updated verdict json detail now front back r u =
    let (before, behind) = OneRow-Apart front back r u in
    map-append (set_verdict r.snapshot_id verdict json detail now) front (r ∷ back)
    ∙ rw
        (
          set_verdict-Apart r.snapshot_id verdict json detail now front before,
          set_verdict-Apart r.snapshot_id verdict json detail now back behind,
          set_verdict-own r verdict json detail now,
        )
        refl
