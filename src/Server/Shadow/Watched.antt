-- ===== src/Server/Shadow/Watched.antt =====
-- harvest_shadow.rs: what an audit of a snapshot comes to, when the server moves the snapshot between
-- two samples by its own table.
use bigtop.Common.{
  ℕ, zero, suc, ◌+◌, ◌≤◌, ◌≡◌, HashMap, get, inl, inr, not, refl, ap, ◌∙◌, subst, true, false, none,
  some, List, [], ◌∷◌, ◌++◌, append_assoc, append-nil, arith, Bool-cases, length,
}
use bigtop.Core.Ids.{SnapshotId}
use bigtop.Core.Snapshots.{SnapshotState, SnapshotRecord}
use bigtop.Server.Shadow.{ShadowInput, Observation, is_terminal, states, judge_states, judge}
use bigtop.Server.Shadow.Later.{
  Moves, Moves-is_legal_transition, InTime, later, length-later, length-later_active, later_ended,
  later_active, any_missing-later, states-cons, judge_states-later,
}
use bigtop.Server.Shadow.Audit.{
  Engine, ShadowOutput, observe_body, is_active, watch, judged, snapshot_shadow,
}

-- An engine that answers every sample and every timer, and finds the record in each sample.
record Answers (engine : Engine) (sampled : ℕ → Observation) (s : ℕ → SnapshotState) : Type 0 where
  pub sample : (n : ℕ) → engine.sample n ≡ inl (sampled n)
  pub timer : (n : ℕ) → engine.timer n ≡ none
  pub found : (n : ℕ) → (sampled n).state ≡ some (s n)

watch_ended :
    (engine : Engine) (left polls : ℕ) (o : Observation) (observations : List Observation)
    → is_active o.state ≡ false
    → watch engine (suc left) polls o observations ≡ inl observations
unfolding watch
watch_ended engine left polls o observations h = rw (h, watch)

watch_active :
    (engine : Engine) (left polls : ℕ) (o next : Observation) (observations : List Observation)
    → is_active o.state ≡ true
    → engine.timer polls ≡ none
    → engine.sample (suc polls) ≡ inl next
    → watch engine (suc left) polls o observations
      ≡ watch engine left (suc polls) next (observations ++ next ∷ [])
unfolding watch
watch_active engine left polls o next observations h t e = rw (h, t, e, watch)

is_active-state :
    (o : Observation) (state : SnapshotState)
    → o.state ≡ some state
    → is_active o.state ≡ not (is_terminal state)
unfolding is_active
is_active-state o state h = rw h

module _ {engine : Engine} {sampled : ℕ → Observation} {s : ℕ → SnapshotState}
    (answers : Answers engine sampled s) where
  watch-later :
      (left polls : ℕ) (observations : List Observation)
      → watch engine left polls (sampled polls) observations
        ≡ inl (observations ++ later sampled s left polls)
  unfolding later watch
  watch-later zero polls observations = rw append-nil
  watch-later (suc left) polls observations = elim (Bool-cases (is_terminal (s polls))) [
    | inl ended ↦
        rw (later_ended sampled s left polls ended, append-nil)
          (watch_ended engine left polls (sampled polls) observations
            (is_active-state (sampled polls) (s polls) (answers.found polls) ∙ ap not ended))
    | inr active ↦ rw (later_active sampled s left polls active) (
        watch_active engine left polls (sampled polls) (sampled (suc polls)) observations
          (is_active-state (sampled polls) (s polls) (answers.found polls) ∙ ap not active)
          (answers.timer polls) (answers.sample (suc polls))
        ∙ watch-later left (suc polls) (observations ++ sampled (suc polls) ∷ [])
        ∙ ap inl (append_assoc observations (sampled (suc polls) ∷ []) _))
  ]

  snapshot_shadow-later :
      (input : ShadowInput)
      → snapshot_shadow engine input
        ≡ judged input (inl (sampled 0 ∷ later sampled s input.max_polls 0))
  unfolding snapshot_shadow
  snapshot_shadow-later input =
      rw (answers.sample 0, snapshot_shadow)
        (ap (judged input) (watch-later input.max_polls 0 (sampled 0 ∷ [])))

  judge-later :
      (left : ℕ)
      → judge (sampled 0 ∷ later sampled s left 0)
        ≡ judge_states (s 0 ∷ states (later sampled s left 0))
  unfolding judge
  judge-later left =
      rw (any_missing-later sampled s answers.found left 0)
        (ap judge_states (states-cons sampled s answers.found 0 (later sampled s left 0)))

-- What an audit returns that ends with a verdict, within so many polls.
pub record Audited (engine : Engine) (input : ShadowInput) (s : ℕ → SnapshotState) : Type 0 where
  pub output : ShadowOutput
  pub returned : snapshot_shadow engine input ≡ inl output
  pub id : output.snapshot_id ≡ input.snapshot_id
  bounded : length output.observations ≤ input.max_polls + 1
  given_up :
      ((k : ℕ) → k ≤ input.max_polls → is_terminal (s k) ≡ false)
      → length output.observations ≡ input.max_polls + 1
  pub verdict : InTime s 0 input.max_polls output.verdict

answered-Audited :
    (engine : Engine) (input : ShadowInput) (sampled : ℕ → Observation) (s : ℕ → SnapshotState)
    → Answers engine sampled s
    → ((n : ℕ) → Moves (s n) (s (suc n)))
    → Audited engine input s
unfolding judged
answered-Audited engine input sampled s answers moves =
    let all : List Observation = sampled 0 ∷ later sampled s input.max_polls 0 in
    record {
      output = record { snapshot_id = input.snapshot_id; verdict = judge all; observations = all };
      returned = snapshot_shadow-later answers input;
      id = refl;
      bounded = omega (arith, length-later sampled s input.max_polls 0);
      given_up = λ active. omega (
        arith,
        length-later_active sampled s input.max_polls 0
            λ k le. subst (λ n. is_terminal (s n) ≡ false) {x = k} (omega arith) (active k le),
      );
      verdict = rw (judge-later answers input.max_polls) (
          judge_states-later sampled s answers.found (λ n. Moves-is_legal_transition (moves n))
            input.max_polls 0);
    }

-- An engine that runs the registered body on the mirror, as it is at the time of the sample, and fires
-- every timer; the record is in the mirror each time.
pub record Mirrored (engine : Engine) (id : SnapshotId) (mirror : ℕ → HashMap SnapshotRecord)
    (record_at : ℕ → SnapshotRecord) (time : ℕ → ℕ) : Type 0 where
  pub sample : (n : ℕ) → engine.sample n ≡ inl (observe_body (mirror n) id (time n))
  pub timer : (n : ℕ) → engine.timer n ≡ none
  pub held : (n : ℕ) → get id (mirror n) ≡ some (record_at n)

-- An audit whose engine samples the mirror and fires every timer, and whose record is in the mirror
-- each time, ends, with at most `max_polls + 1` observations: one before the first poll and one for
-- each poll. Where the server makes any number of its own moves between two samples, the audit agrees
-- exactly if one of the first `max_polls + 1` samples is terminal, and calls the snapshot stuck if
-- none of them is, and then it has observed `max_polls + 1` times, which is once more than the
-- comments on `max_polls` and `MAX_POLLS` in harvest_shadow.rs allow.
pub snapshot_shadow-Audited :
    (engine : Engine) (input : ShadowInput) (mirror : ℕ → HashMap SnapshotRecord)
    (record_at : ℕ → SnapshotRecord) (time : ℕ → ℕ)
    → Mirrored engine input.snapshot_id mirror record_at time
    → ((n : ℕ) → Moves (record_at n).state (record_at (suc n)).state)
    → Audited engine input (λ n. (record_at n).state)
unfolding observe_body
snapshot_shadow-Audited engine input mirror record_at time m moves =
    answered-Audited engine input (λ n. observe_body (mirror n) input.snapshot_id (time n))
      (λ n. (record_at n).state)
      (record { sample = m.sample; timer = m.timer; found = λ n. rw (m.held n, observe_body) })
      moves
