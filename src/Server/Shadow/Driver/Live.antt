-- ===== src/Server/Shadow/Driver/Live.antt =====
-- harvest_shadow.rs: a sweep in which everything can be read and written.
use bigtop.Common.{
  ◌≡◌, ◌⊎◌, inl, refl, sym, ap, ◌∙◌, subst, List, [], ◌∷◌, ◌++◌, map, length, String, arith,
  append_assoc,
}
use bigtop.Common.Distinct.{Distinct}
use bigtop.Server.Shadow.{Observation, Verdict, as_str}
use bigtop.Server.Shadow.Driver.{
  Row, ShadowDriver, ShadowResult, ok, err, and_then, add_u64, answer_of, statement,
  ExecutionOutcome, Codec, pending_tracks, set_verdict, record_verdict, settle, sweep_all, sweep,
}
use bigtop.Server.Shadow.Driver.Ends.{Settles, Ends, AllEnds}
use bigtop.Server.Shadow.Driver.Places.{updated}
use bigtop.Server.Shadow.Driver.Rows.{OneRow, ids, selected, selected_pending, selected_settled}

module _ (codec : Codec) (now : String) (outcome : String → ExecutionOutcome ⊎ String) where
  -- A part of a sweep that ends well, on a database that answers, leaves these rows.
  record Leaves (rows : List Row) (result : ShadowResult (Unit {0}) × ShadowDriver) : Type 0 where
    fine : result.0 ≡ ok tt
    answers : result.1.statements ≡ []
    left : result.1.rows ≡ rows

  recorded :
      (id : String) (v : Verdict) (observations : List Observation) (detail json : String)
      (d : ShadowDriver)
      → d.statements ≡ []
      → codec.encode observations ≡ inl json
      → Leaves
          (map (set_verdict id (as_str v) json detail now) d.rows)
          (record_verdict codec now id v observations detail d)
  unfolding record_verdict statement
  recorded id v observations detail json d a e =
      rw e (rw a (record { fine = refl; answers = a; left = refl }))

  Leaves-eq :
      {rows others : List Row} {result : ShadowResult (Unit {0}) × ShadowDriver}
      → rows ≡ others
      → Leaves rows result
      → Leaves others result
  Leaves-eq {result = result} e h = subst (λ rows. Leaves rows result) e h

  -- What the engine said of an execution, and what `settle` then leaves.
  record Settled (r : Row) (rows : List Row) (d : ShadowDriver) : Type 0 where
    exec : String
    result : ExecutionOutcome
    known : codec.execution_id r.execution_id ≡ inl exec
    said : outcome exec ≡ inl result
    leaves : Leaves rows (settle codec now r.snapshot_id result d)

  settle-Settled :
      (front back : List Row) (r s : Row) (d : ShadowDriver)
      → OneRow (front ++ r ∷ back)
      → d.rows ≡ front ++ r ∷ back
      → d.statements ≡ []
      → Settles codec now outcome r s
      → Settled r (front ++ s ∷ back) d
  unfolding settle
  settle-Settled front back r _ d u e a (Settles.runs exec k o) = record {
    exec = exec;
    result = ExecutionOutcome.running;
    known = k;
    said = o;
    leaves = record { fine = refl; answers = a; left = e };
  }
  settle-Settled front back r _ d u e a (Settles.failed exec message json k o j) = record {
    exec = exec;
    result = ExecutionOutcome.failed message;
    known = k;
    said = o;
    leaves =
        Leaves-eq (ap (map _) e ∙ updated _ json message now front back r u)
          (recorded r.snapshot_id Verdict.harvest_error [] message json d a j);
  }
  settle-Settled front back r _ d u e a (Settles.terminated exec state json k o j) = record {
    exec = exec;
    result = ExecutionOutcome.terminated state;
    known = k;
    said = o;
    leaves =
        Leaves-eq (ap (map _) e ∙ updated _ json _ now front back r u)
          (recorded r.snapshot_id Verdict.harvest_error [] _ json d a j);
  }
  settle-Settled front back r _ d u e a (Settles.completed exec value json output k o p j) =
      record {
        exec = exec;
        result = ExecutionOutcome.completed value;
        known = k;
        said = o;
        leaves = rw p (
            counted _ _ (
              Leaves-eq (ap (map _) e ∙ updated _ json "" now front back r u)
                (recorded r.snapshot_id output.verdict output.observations "" json d a j)));
      }
    where
      counted :
          (rows : List Row) (result : ShadowResult (Unit {0}) × ShadowDriver)
          → Leaves rows result
          → Leaves rows (
              and_then result (λ _ d. (
                ok tt,
                record d { observations = add_u64 d.observations (length output.observations) },
              )))
      counted rows (ok _, d) h = record { fine = refl; answers = h.answers; left = h.left }
      counted rows (err x, d) h = absurd (ground (arith, h.fine))

  sweep_all-Settled :
      (r : Row) (rows : List Row) (pending : List (String × String)) (d : ShadowDriver)
      → (h : Settled r rows d)
      → sweep_all codec now outcome ((r.snapshot_id, r.execution_id) ∷ pending) d
        ≡ sweep_all codec now outcome pending (settle codec now r.snapshot_id h.result d).1
  unfolding sweep_all
  sweep_all-Settled r rows pending d h =
      rw h.known (rw h.said (go (settle codec now r.snapshot_id h.result d) h.leaves.fine))
    where
      go :
          (result : ShadowResult (Unit {0}) × ShadowDriver)
          → result.0 ≡ ok tt
          → and_then result (λ _. sweep_all codec now outcome pending)
            ≡ sweep_all codec now outcome pending result.1
      go (ok _, d) e = refl
      go (err x, d) e = absurd (ground arith)

  same_id : (r s : Row) → Ends codec now outcome r s → s.snapshot_id ≡ r.snapshot_id
  same_id r _ (Ends.over h) = refl
  same_id r _ (Ends.settles h (Settles.runs exec k o)) = refl
  same_id r _ (Ends.settles h (Settles.completed exec value json output k o p j)) = refl
  same_id r _ (Ends.settles h (Settles.failed exec message json k o j)) = refl
  same_id r _ (Ends.settles h (Settles.terminated exec state json k o j)) = refl

  ids-middle :
      (front back : List Row) (r s : Row)
      → s.snapshot_id ≡ r.snapshot_id
      → ids (front ++ r ∷ back) ≡ ids ((front ++ s ∷ []) ++ back)
  ids-middle [] back r s e = ap (λ id. id ∷ ids back) (sym e)
  ids-middle (x ∷ front) back r s e = ap (λ l. x.snapshot_id ∷ l) (ids-middle front back r s e)

  -- What the sweep of the rows behind leaves, with the rows in front of them.
  Behind : List Row → List Row → List Row → Type 0
  Behind front rows others =
      (d : ShadowDriver)
      → d.statements ≡ []
      → d.rows ≡ front ++ rows
      → OneRow (front ++ rows)
      → Leaves (front ++ others) (sweep_all codec now outcome (selected rows) d)

  row_on :
      (front rows others : List Row) (r s : Row)
      → Ends codec now outcome r s
      → Behind (front ++ s ∷ []) rows others
      → Behind front (r ∷ rows) (s ∷ others)
  unfolding Behind
  row_on front rows others r s end behind d a e u = go end refl
    where
      on :
          (d : ShadowDriver)
          → d.statements ≡ []
          → d.rows ≡ front ++ s ∷ rows
          → Leaves (front ++ s ∷ others) (sweep_all codec now outcome (selected rows) d)
      on d a e = Leaves-eq (append_assoc front (s ∷ []) others) (
          behind d a (e ∙ sym (append_assoc front (s ∷ []) rows))
            (subst Distinct (ids-middle front rows r s (same_id r s end)) u))

      go :
          {t : Row}
          → Ends codec now outcome r t
          → t ≡ s
          → Leaves (front ++ s ∷ others) (sweep_all codec now outcome (selected (r ∷ rows)) d)
      go (Ends.over k) same =
          subst (λ l. Leaves (front ++ s ∷ others) (sweep_all codec now outcome l d))
            (sym (selected_settled r rows k)) (on d a (e ∙ ap (λ t. front ++ t ∷ rows) same))
      go {t = t} (Ends.settles k end) same =
          let did = settle-Settled front rows r t d u e a end in
          subst (λ l. Leaves (front ++ s ∷ others) (sweep_all codec now outcome l d))
            (sym (selected_pending r rows k))
            (subst (Leaves (front ++ s ∷ others))
              (sym (sweep_all-Settled r (front ++ t ∷ rows) (selected rows) d did))
              (on (settle codec now r.snapshot_id did.result d).1 did.leaves.answers
                (did.leaves.left ∙ ap (λ t. front ++ t ∷ rows) same)))

  all_on :
      (front rows others : List Row)
      → AllEnds codec now outcome rows others
      → Behind front rows others
  unfolding Behind selected sweep_all
  all_on front [] [] h = λ d a e u. record { fine = refl; answers = a; left = e }
  all_on front [] (s ∷ others) h = absurd h
  all_on front (r ∷ rows) [] h = absurd h
  all_on front (r ∷ rows) (s ∷ others) h =
      row_on front rows others r s h.0 (all_on (front ++ s ∷ []) rows others h.1)

answered : (d : ShadowDriver) → d.statements ≡ [] → statement d ≡ (ok tt, d)
unfolding statement answer_of
answered d a = ap (answer_of d) a

-- A sweep on a database that answers, where each pending audit can be read, succeeds and is one pass
-- over the table: a row with a verdict stays as it is, so does the row of an execution that still
-- runs, and any other row gets the verdict of its workflow, or `harvest_error` where the workflow
-- failed or was terminated.
pub sweep-AllEnds :
    (codec : Codec) (now : String) (outcome : String → ExecutionOutcome ⊎ String) (d : ShadowDriver)
    (rows : List Row)
    → d.statements ≡ []
    → OneRow d.rows
    → AllEnds codec now outcome d.rows rows
    → ((sweep codec now outcome d).0 ≡ ok tt) × ((sweep codec now outcome d).1.rows ≡ rows)
unfolding sweep pending_tracks selected Behind
sweep-AllEnds codec now outcome d rows a u h =
    let done = all_on codec now outcome [] d.rows rows h d a refl u in
    rw (answered d a) (done.fine, done.left)
