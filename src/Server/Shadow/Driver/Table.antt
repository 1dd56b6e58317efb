-- ===== src/Server/Shadow/Driver/Table.antt =====
-- harvest_shadow.rs: the table of verdicts, over the driver's loop.
use bigtop.Common.{
  ◌≡◌, ◌≢◌, ◌⊎◌, inl, inr, refl, sym, ◌∙◌, subst, false, none, some, Option, List, [], ◌∷◌, ◌++◌,
  arith, String, eq_iff, All,
}
use bigtop.Common.Distinct.{Distinct}
use bigtop.Server.Shadow.{ShadowInput, Observation, Verdict, as_str}
use bigtop.Server.Shadow.Handle.{TrackCmd}
use bigtop.Server.Shadow.Driver.{
  Row, ShadowDriver, ShadowResult, ok, err, ShadowError, serialization, harvest, statement, has_row,
  new_row, track, ExecutionOutcome, completed, failed, terminated, running, Codec, pending_tracks,
  record_verdict, settle, sweep_all, sweep, tick, contained, Round, track_all, drive, input_of,
  or_raise, Action, and_then,
}
use bigtop.Server.Shadow.Driver.Rows.{
  Kept, Kept-refl, Kept-trans, Kept-append, Kept-set_verdict, ids, OneRow, ids-set_verdict, Open,
  Selected, selected, Selected-selected,
}
use bigtop.Server.Shadow.Driver.Tracks.{
  SameTable, Answered, statement-Answered, Tracked, track_input-Tracked,
}

module _ (xs : List Row) where
  -- The table still has the rows `xs`, or what became of them.
  abbrev Still : ShadowDriver → Type 0
  Still d = Kept xs d.rows × (ids d.rows ≡ ids xs)

  Still-and_then {ℓ κ} :
      {A : Type ℓ} {B : Type κ} (r : ShadowResult A × ShadowDriver) (f : A → Action B)
      → Still r.1
      → ((a : A) (d : ShadowDriver) → Still d → Still (f a d).1)
      → Still (and_then r f).1
  Still-and_then (ok a, d) f h k = k a d h
  Still-and_then (err e, d) f h k = h

  Still-or_raise {ℓ} :
      {A : Type ℓ} (x : A ⊎ String) (f : String → ShadowError) (d : ShadowDriver)
      → Still d
      → Still (or_raise x f d).1
  Still-or_raise (inl a) f d h = h
  Still-or_raise (inr message) f d h = h

  Still-statement : (d : ShadowDriver) → Still d → Still (statement d).1
  Still-statement d h = go (statement d) (statement-Answered d)
    where
      same : {e : ShadowDriver} → SameTable d e → Still e
      same t = subst (λ rows. Kept xs rows × (ids rows ≡ ids xs)) (sym t.rows) h

      go : (r : ShadowResult (Unit {0}) × ShadowDriver) → Answered d r → Still r.1
      go _ (Answered.passed t) = same t
      go _ (Answered.refused t) = same t

  module _ (codec : Codec) (now : String) where
    Still-record_verdict :
        (id : String) (v : Verdict) (os : List Observation) (detail : String) (d : ShadowDriver)
        → Open id xs
        → Still d
        → Still (record_verdict codec now id v os detail d).1
    unfolding record_verdict
    Still-record_verdict id v os detail d p h =
        Still-and_then (or_raise (codec.encode os) serialization d) _
          (Still-or_raise (codec.encode os) serialization d h)
          λ json d₁ h₁. Still-and_then (statement d₁) _ (Still-statement d₁ h₁) λ _ d₂ h₂. (
            Kept-set_verdict id (as_str v) json detail now xs d₂.rows p h₂.0,
            ids-set_verdict id (as_str v) json detail now d₂.rows ∙ h₂.1,
          )

    Still-settle :
        (id : String) (o : ExecutionOutcome) (d : ShadowDriver)
        → Open id xs
        → Still d
        → Still (settle codec now id o d).1
    unfolding settle
    Still-settle id (completed value) d p h =
        Still-and_then (or_raise (codec.output value) serialization d) _
          (Still-or_raise (codec.output value) serialization d h)
          λ output d₁ h₁.
            Still-and_then (record_verdict codec now id output.verdict output.observations "" d₁) _
              (Still-record_verdict id output.verdict output.observations "" d₁ p h₁) λ _ d₂ h₂. h₂
    Still-settle id (failed message) d p h =
        Still-record_verdict id Verdict.harvest_error [] message d p h
    Still-settle id (terminated state) d p h =
        Still-record_verdict id Verdict.harvest_error [] _ d p h
    Still-settle id running d p h = h

    Still-sweep_all :
        (outcome : String → ExecutionOutcome ⊎ String) (pending : List (String × String))
        (d : ShadowDriver)
        → Selected pending xs
        → Still d
        → Still (sweep_all codec now outcome pending d).1
    unfolding sweep_all
    Still-sweep_all outcome [] d p h = h
    Still-sweep_all outcome ((id, exec_str) ∷ pending) d p h =
        Still-and_then (or_raise (codec.execution_id exec_str) _ d) _
          (Still-or_raise (codec.execution_id exec_str) _ d h)
          λ exec d₁ h₁.
            Still-and_then (or_raise (outcome exec) harvest d₁) _
              (Still-or_raise (outcome exec) harvest d₁ h₁)
              λ result d₂ h₂.
                Still-and_then (settle codec now id result d₂) _ (Still-settle id result d₂ p.0 h₂)
                  λ _ d₃ h₃. Still-sweep_all outcome pending d₃ p.1 h₃

    Still-tick :
        (poll : Option String) (outcome : String → ExecutionOutcome ⊎ String) (d : ShadowDriver)
        → d.rows ≡ xs
        → OneRow xs
        → Still d
        → Still (tick codec now poll outcome d).1
    unfolding tick sweep pending_tracks selected
    Still-tick (some message) outcome d e u h = h
    Still-tick none outcome d start u h = go (statement d) (statement-Answered d)
      where
        same : {d₁ : ShadowDriver} → SameTable d d₁ → Still d₁
        same t = subst (λ rows. Kept xs rows × (ids rows ≡ ids xs)) (sym t.rows) h

        go :
            (r : ShadowResult (Unit {0}) × ShadowDriver)
            → Answered d r
            → Still
                (and_then
                  (and_then r (λ _ d₁. (ok (selected d₁.rows), d₁)))
                  (sweep_all codec now outcome)).1
        go _ (Answered.passed {e = d₁} t) =
            Still-sweep_all outcome (selected d₁.rows) d₁
              (subst (λ rows. Selected (selected rows) xs) (sym (t.rows ∙ start))
                (Selected-selected xs u))
              (same t)
        go _ (Answered.refused t) = same t

-- Every row is kept, each one that was settled as it was, and no snapshot has two rows.
abbrev pub Sound : List Row → ShadowDriver → Type 0
Sound xs d = Kept xs d.rows × OneRow d.rows

Sound-contained :
    (xs : List Row) (r : ShadowResult (Unit {0}) × ShadowDriver)
    → Sound xs r.1
    → Sound xs (contained r)
unfolding contained
Sound-contained xs (ok _, d) h = h
Sound-contained xs (err e, d) h = h

not-has_row :
    (id : String) (rows : List Row) → has_row id rows ≡ false → All (λ y. y ≢ id) (ids rows)
unfolding has_row
not-has_row id [] h = tt
not-has_row id (r ∷ rows) h =
    ((λ e. ground (arith, eq_iff r.snapshot_id id)), not-has_row id rows (ground arith))

Distinct-snoc :
    (rows : List Row) (r : Row)
    → OneRow rows
    → All (λ y. y ≢ r.snapshot_id) (ids rows)
    → OneRow (rows ++ r ∷ [])
Distinct-snoc [] r u n = (tt, tt)
Distinct-snoc (x ∷ rows) r u n = (fresh rows u.0, Distinct-snoc rows r u.1 n.1)
  where
    fresh :
        (ys : List Row)
        → All (λ y. y ≢ x.snapshot_id) (ids ys)
        → All (λ y. y ≢ x.snapshot_id) (ids (ys ++ r ∷ []))
    fresh [] h = ((λ e. n.0 (sym e)), tt)
    fresh (y ∷ ys) h = (h.0, fresh ys h.1)

Sound-same : (xs : List Row) (d e : ShadowDriver) → SameTable d e → Sound xs d → Sound xs e
Sound-same xs d e t h = subst (λ rows. Kept xs rows × OneRow rows) (sym t.rows) h

Sound-Tracked :
    (xs : List Row) (input : ShadowInput) (d : ShadowDriver)
    (r : ShadowResult (Unit {0}) × ShadowDriver)
    → Tracked input d r
    → Sound xs d
    → Sound xs r.1
Sound-Tracked xs input d _ (Tracked.known {e} old t) h = Sound-same xs d e t h
Sound-Tracked xs input d _ (Tracked.unchanged {e} t) h = Sound-same xs d e t h
Sound-Tracked xs input d _ (Tracked.added {e} exec now new rows s o) h =
    subst (λ l. Kept xs l × OneRow l) (sym rows)
      (
        Kept-trans xs d.rows _ h.0 (Kept-append d.rows _),
        Distinct-snoc d.rows (new_row input exec now) h.1
            (not-has_row input.snapshot_id d.rows new),
      )

Sound-track_all :
    (xs : List Row) (commands : List (TrackCmd × (String ⊎ String) × String)) (d : ShadowDriver)
    → Sound xs d
    → Sound xs (track_all commands d)
unfolding track_all track
Sound-track_all xs [] d h = h
Sound-track_all xs ((cmd, start, now) ∷ commands) d h =
    Sound-track_all xs commands (contained (track cmd start now d)) (
      Sound-contained xs (track cmd start now d) (
        Sound-Tracked xs (input_of cmd) d (track cmd start now d)
          (track_input-Tracked (input_of cmd) start now d) h))

Sound-tick :
    (xs : List Row) (codec : Codec) (r : Round) (d : ShadowDriver)
    → Sound xs d
    → Sound xs (tick codec r.now r.poll r.outcome d).1
Sound-tick xs codec r d h =
    let after =
      Still-tick d.rows codec r.now r.poll r.outcome d refl h.1 (Kept-refl d.rows, refl) in
    (Kept-trans xs d.rows _ h.0 after.0, subst Distinct (sym after.1) h.1)

-- Whatever the driver receives, and whatever the workflow engine and the database answer: in a table
-- in which no snapshot has two rows, a row keeps its place, its snapshot, its execution and its task,
-- a row with a verdict stays exactly as it is, and no snapshot comes to have two rows.
pub drive-Sound :
    (codec : Codec) (rounds : List Round) (d : ShadowDriver)
    → OneRow d.rows
    → Kept d.rows (drive codec rounds d).rows × OneRow (drive codec rounds d).rows
unfolding drive
drive-Sound codec rounds d u = go d.rows rounds d (Kept-refl d.rows, u)
  where
    go :
        (xs : List Row) (rounds : List Round) (d : ShadowDriver)
        → Sound xs d
        → Sound xs (drive codec rounds d)
    go xs [] d h = h
    go xs (r ∷ rounds) d h = go xs rounds _ (
        Sound-contained xs _
          (Sound-tick xs codec r (track_all r.commands d) (Sound-track_all xs r.commands d h)))
