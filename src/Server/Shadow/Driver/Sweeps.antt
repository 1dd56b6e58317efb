-- ===== src/Server/Shadow/Driver/Sweeps.antt =====
-- harvest_shadow.rs: a sweep stops at the first audit whose outcome cannot be read.
use bigtop.Common.{
  ◌≡◌, ◌⊎◌, inl, inr, refl, sym, ap, ◌∙◌, subst, true, false, Option, none, some, List, [], ◌∷◌,
  ◌++◌, append-nil, append_assoc, String, All,
}
use bigtop.Server.Shadow.Handle.{TrackCmd}
use bigtop.Server.Shadow.Driver.{
  Row, ShadowDriver, ShadowResult, ok, err, and_then, statement, ExecutionOutcome, completed, Codec,
  new_row, is_pending, pending_tracks, settle, sweep_all, sweep, tick, contained, Round, track,
  track_all, drive, input_of,
}
use bigtop.Server.Shadow.Driver.Rows.{selected, selected_pending, selected_settled}
use bigtop.Server.Shadow.Driver.Tracks.{
  SameTable, Answered, statement-Answered, Tracked, track_input-Tracked,
}

-- What a sweep cannot make of an execution, whatever the reason.
pub data Unreadable (codec : Codec) (outcome : String → ExecutionOutcome ⊎ String)
    (exec_str : String) : Type 0 where
  bad_id : (e : String) → codec.execution_id exec_str ≡ inr e → Unreadable codec outcome exec_str
  bad_outcome :
      (exec e : String)
      → codec.execution_id exec_str ≡ inl exec
      → outcome exec ≡ inr e
      → Unreadable codec outcome exec_str
  bad_output :
      (exec value e : String)
      → codec.execution_id exec_str ≡ inl exec
      → outcome exec ≡ inl (completed value)
      → codec.output value ≡ inr e
      → Unreadable codec outcome exec_str

sweep_all-Unreadable :
    (codec : Codec) (now : String) (outcome : String → ExecutionOutcome ⊎ String)
    (id exec_str : String) (pending : List (String × String)) (d : ShadowDriver)
    → Unreadable codec outcome exec_str
    → (sweep_all codec now outcome ((id, exec_str) ∷ pending) d).1 ≡ d
unfolding sweep_all settle
sweep_all-Unreadable codec now outcome id exec_str pending d (Unreadable.bad_id e p) = rw p
sweep_all-Unreadable codec now outcome id exec_str pending d (Unreadable.bad_outcome exec e p q) =
    rw p (rw q refl)
sweep_all-Unreadable codec now outcome id exec_str pending d
      (Unreadable.bad_output exec v e p q r) =
    rw p (rw q (rw r refl))

-- The rows that a sweep takes: those with a verdict in front of the first pending row are passed over.
selected-front :
    (front back : List Row) (r : Row)
    → All (λ x. is_pending x ≡ false) front
    → is_pending r ≡ true
    → selected (front ++ r ∷ back) ≡ (r.snapshot_id, r.execution_id) ∷ selected back
selected-front [] back r h p = selected_pending r back p
selected-front (x ∷ front) back r h p =
    selected_settled x (front ++ r ∷ back) h.0 ∙ selected-front front back r h.1 p

-- The table with more rows behind those that it had.
abbrev Grown : List Row → ShadowDriver → Type 0
Grown xs d = (extra : List Row) × (d.rows ≡ xs ++ extra)

Grown-same : (xs : List Row) (d e : ShadowDriver) → SameTable d e → Grown xs d → Grown xs e
Grown-same xs d e t (extra, h) = (extra, t.rows ∙ h)

Grown-contained :
    (xs : List Row) (r : ShadowResult (Unit {0}) × ShadowDriver)
    → Grown xs r.1
    → Grown xs (contained r)
unfolding contained
Grown-contained xs (ok _, d) h = h
Grown-contained xs (err e, d) h = h

Grown-Tracked :
    (xs : List Row) (cmd : TrackCmd) (d : ShadowDriver) (r : ShadowResult (Unit {0}) × ShadowDriver)
    → Tracked (input_of cmd) d r
    → Grown xs d
    → Grown xs r.1
Grown-Tracked xs cmd d _ (Tracked.known {e} old t) h = Grown-same xs d e t h
Grown-Tracked xs cmd d _ (Tracked.unchanged {e} t) h = Grown-same xs d e t h
Grown-Tracked xs cmd d _ (Tracked.added {e} exec now new rows s o) (extra, h) =
    let more : List Row = new_row (input_of cmd) exec now ∷ [] in
    (extra ++ more, rows ∙ ap (λ l. l ++ more) h ∙ append_assoc xs extra more)

Grown-track_all :
    (xs : List Row) (commands : List (TrackCmd × (String ⊎ String) × String)) (d : ShadowDriver)
    → Grown xs d
    → Grown xs (track_all commands d)
unfolding track_all track
Grown-track_all xs [] d h = h
Grown-track_all xs ((cmd, start, now) ∷ commands) d h = Grown-track_all xs commands _ (
    Grown-contained xs (track cmd start now d)
      (Grown-Tracked xs cmd d _ (track_input-Tracked (input_of cmd) start now d) h))

module _ (codec : Codec) (front back : List Row) (r : Row)
    (settled : All (λ x. is_pending x ≡ false) front) (open_row : is_pending r ≡ true) where
  -- The sweep comes to the row first, and does nothing.
  swept_none :
      (now : String) (outcome : String → ExecutionOutcome ⊎ String) (e : ShadowDriver)
      → Unreadable codec outcome r.execution_id
      → Grown (front ++ r ∷ back) e
      → Grown (front ++ r ∷ back) (sweep_all codec now outcome (selected e.rows) e).1
  swept_none now outcome e u (extra, h) =
      let first =
        ap selected (h ∙ append_assoc front (r ∷ back) extra)
        ∙ selected-front front (back ++ extra) r settled open_row in
      subst (Grown (front ++ r ∷ back))
        (sym (
          ap (λ pending. (sweep_all codec now outcome pending e).1) first
          ∙ sweep_all-Unreadable codec now outcome r.snapshot_id r.execution_id
              (selected (back ++ extra)) e u))
        (extra, h)

  Grown-tick :
      (now : String) (outcome : String → ExecutionOutcome ⊎ String) (poll : Option String)
      (d : ShadowDriver)
      → Unreadable codec outcome r.execution_id
      → Grown (front ++ r ∷ back) d
      → Grown (front ++ r ∷ back) (tick codec now poll outcome d).1
  unfolding tick sweep pending_tracks selected
  Grown-tick now outcome (some message) d u h = h
  Grown-tick now outcome none d u h = go (statement d) (statement-Answered d)
    where
      go :
          (a : ShadowResult (Unit {0}) × ShadowDriver)
          → Answered d a
          → Grown
              (front ++ r ∷ back)
              (and_then
                (and_then a (λ _ d₁. (ok (selected d₁.rows), d₁)))
                (sweep_all codec now outcome)).1
      go _ (Answered.passed {e} t) =
          swept_none now outcome e u (Grown-same (front ++ r ∷ back) d e t h)
      go _ (Answered.refused {e} t) = Grown-same (front ++ r ∷ back) d e t h

  blocked :
      (rounds : List Round) (d : ShadowDriver)
      → All (λ round. Unreadable codec round.outcome r.execution_id) rounds
      → Grown (front ++ r ∷ back) d
      → Grown (front ++ r ∷ back) (drive codec rounds d)
  unfolding drive
  blocked [] d u h = h
  blocked (round ∷ rounds) d u h = blocked rounds _ u.1 (
      Grown-contained (front ++ r ∷ back) _ (
        Grown-tick round.now round.outcome round.poll (track_all round.commands d) u.0
          (Grown-track_all (front ++ r ∷ back) round.commands d h)))

-- While the first pending audit cannot be read (its execution id does not parse, the engine has no
-- outcome for it, or its output does not decode), no audit comes to its verdict, however many rounds
-- the driver makes and whatever the other audits have come to: the rows stay exactly as they are, and
-- new ones are only added behind them.
pub drive_blocked :
    (codec : Codec) (front back : List Row) (r : Row) (rounds : List Round) (d : ShadowDriver)
    → d.rows ≡ front ++ r ∷ back
    → All (λ x. is_pending x ≡ false) front
    → is_pending r ≡ true
    → All (λ round. Unreadable codec round.outcome r.execution_id) rounds
    → (extra : List Row) × ((drive codec rounds d).rows ≡ d.rows ++ extra)
drive_blocked codec front back r rounds d e settled open_row u =
    let (extra, grown) =
      blocked codec front back r settled open_row rounds d u ([], e ∙ sym (append-nil _)) in
    (extra, grown ∙ ap (λ rows. rows ++ extra) (sym e))
