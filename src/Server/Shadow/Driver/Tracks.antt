-- ===== src/Server/Shadow/Driver/Tracks.antt =====
-- harvest_shadow.rs: what a request to track a snapshot comes to.
use bigtop.Common.{
  ◌≡◌, ◌⊎◌, inl, inr, refl, sym, ap, ◌∙◌, Bool, true, false, none, some, Option, List, [], ◌∷◌,
  ◌++◌, String, if◌then◌else◌,
}
use bigtop.Server.Shadow.{ShadowInput}
use bigtop.Server.Shadow.Driver.{
  ShadowDriver, ShadowResult, ok, err, ShadowError, harvest, store, statement, answer_of, add_u64,
  has_row, is_tracked, new_row, insert_row, track_input, or_raise, Action, and_then, ◌>>=◌, ◌>>◌,
  modify, pure,
}

-- What a statement leaves as it was.
pub record SameTable (d e : ShadowDriver) : Type 0 where
  pub rows : e.rows ≡ d.rows
  pub started : e.started ≡ d.started
  pub observations : e.observations ≡ d.observations

pub data Answered (d : ShadowDriver) : ShadowResult (Unit {0}) × ShadowDriver → Type 0 where
  passed : {e : ShadowDriver} → SameTable d e → Answered d (ok tt, e)
  refused :
      {e : ShadowDriver} {message : String} → SameTable d e → Answered d (err (store message), e)

same_but :
    (d : ShadowDriver) (rest : List (Option String)) → SameTable d (record d { statements = rest })
same_but d rest = record { rows = refl; started = refl; observations = refl }

-- A statement succeeds or fails, and touches nothing but the answers.
pub statement-Answered : (d : ShadowDriver) → Answered d (statement d)
unfolding statement
statement-Answered d = go d.statements
  where
    go : (answers : List (Option String)) → Answered d (answer_of d answers)
    go [] = Answered.passed (record { rows = refl; started = refl; observations = refl })
    go (none ∷ rest) = Answered.passed (same_but d rest)
    go (some message ∷ rest) = Answered.refused (same_but d rest)

-- What a request to track a snapshot comes to: it is tracked, by the row that it has or by a new one
-- for a new audit, or nothing has changed.
pub data Tracked (input : ShadowInput) (d : ShadowDriver)
    : ShadowResult (Unit {0}) × ShadowDriver → Type 0 where
  known :
      {e : ShadowDriver}
      → has_row input.snapshot_id d.rows ≡ true
      → SameTable d e
      → Tracked input d (ok tt, e)
  added :
      {e : ShadowDriver} (exec now : String)
      → has_row input.snapshot_id d.rows ≡ false
      → e.rows ≡ d.rows ++ new_row input exec now ∷ []
      → e.started ≡ add_u64 d.started 1
      → e.observations ≡ d.observations
      → Tracked input d (ok tt, e)
  unchanged :
      {e : ShadowDriver} {error : ShadowError} → SameTable d e → Tracked input d (err error, e)

SameTable-trans : {c d e : ShadowDriver} → SameTable c d → SameTable d e → SameTable c e
SameTable-trans s t = record {
  rows = t.rows ∙ s.rows;
  started = t.started ∙ s.started;
  observations = t.observations ∙ s.observations;
}

-- The insertion, where the snapshot has no row.
inserted :
    (input : ShadowInput) (exec now : String) (c d : ShadowDriver)
    → SameTable c d
    → has_row input.snapshot_id c.rows ≡ false
    → Tracked input c (
        and_then
          (insert_row (new_row input exec now) d)
          (λ _ d₁. (ok tt, record d₁ { started = add_u64 d₁.started 1 })))
unfolding insert_row
inserted input exec now c d t new = rw (ap (has_row input.snapshot_id) t.rows ∙ new) (
    Tracked.added exec now new (ap (λ rows. rows ++ new_row input exec now ∷ []) t.rows)
      (ap (λ n. add_u64 n 1) t.started) t.observations)

started_audit :
    (input : ShadowInput) (start : String ⊎ String) (now : String) (c d : ShadowDriver)
    → SameTable c d
    → has_row input.snapshot_id c.rows ≡ false
    → Tracked input c (
        and_then (or_raise start harvest d) (λ exec.
          statement
          >> (insert_row (new_row input exec now)
              >> modify (λ d₁. record d₁ { started = add_u64 d₁.started 1 }))))
started_audit input (inr message) now c d t new = Tracked.unchanged t
started_audit input (inl exec) now c d t new = go (statement d) (statement-Answered d)
  where
    go :
        (r : ShadowResult (Unit {0}) × ShadowDriver)
        → Answered d r
        → Tracked input c (
            and_then r (λ _.
              insert_row (new_row input exec now)
              >> modify (λ d₁. record d₁ { started = add_u64 d₁.started 1 })))
    go _ (Answered.passed {e = d₁} u) = inserted input exec now c d₁ (SameTable-trans t u) new
    go _ (Answered.refused u) = Tracked.unchanged (SameTable-trans t u)

-- What follows the query.
abbrev insertion : ShadowInput → String ⊎ String → String → Action (Unit {0})
insertion input start now = or_raise start harvest >>= (λ exec.
    statement
    >> (insert_row (new_row input exec now)
        >> modify (λ d. record d { started = add_u64 d.started 1 })))

queried :
    (input : ShadowInput) (start : String ⊎ String) (now : String) (c d : ShadowDriver)
    (tracked : Bool)
    → SameTable c d
    → has_row input.snapshot_id c.rows ≡ tracked
    → Tracked input c ((if tracked then pure tt else insertion input start now) d)
queried input start now c d true t h = Tracked.known h t
queried input start now c d false t h = started_audit input start now c d t h

pub track_input-Tracked :
    (input : ShadowInput) (start : String ⊎ String) (now : String) (d : ShadowDriver)
    → Tracked input d (track_input input start now d)
unfolding track_input is_tracked
track_input-Tracked input start now d = go (statement d) (statement-Answered d)
  where
    go :
        (r : ShadowResult (Unit {0}) × ShadowDriver)
        → Answered d r
        → Tracked input d (
            and_then
              (and_then r (λ _ d₁. (ok (has_row input.snapshot_id d₁.rows), d₁)))
              (λ tracked. if tracked then pure tt else insertion input start now))
    go _ (Answered.passed {e = d₁} t) =
        queried input start now d d₁ (has_row input.snapshot_id d₁.rows) t
          (sym (ap (has_row input.snapshot_id) t.rows))
    go _ (Answered.refused t) = Tracked.unchanged t
