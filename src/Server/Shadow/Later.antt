-- ===== src/Server/Shadow/Later.antt =====
-- harvest_shadow.rs: the samples that an audit takes of a snapshot, and the verdict on them.
use bigtop.Common.{
  ℕ, zero, suc, ◌+◌, ◌≤◌, ◌≡◌, inl, inr, refl, sym, ◌∙◌, subst, true, false, some, List, [], ◌∷◌,
  arith, Bool-cases, length,
}
use bigtop.Core.Snapshots.{SnapshotState}
use bigtop.Server.State.Snapshots.{legal}
use bigtop.Server.Shadow.{
  Observation, Verdict, is_legal_transition, is_terminal, any_missing, states, all_legal, last,
  judge_states,
}

-- Any number of moves by the server's table.
pub data Moves (a : SnapshotState) : SnapshotState → Type 0 where
  still : Moves a a
  then_move : {b c : SnapshotState} → Moves a b → legal b c ≡ true → Moves a c

is_legal_transition-then :
    (a b c : SnapshotState)
    → is_legal_transition a b ≡ true
    → legal b c ≡ true
    → is_legal_transition a c ≡ true
unfolding is_legal_transition legal
is_legal_transition-then a b c h k = ground arith

pub Moves-is_legal_transition : {a b : SnapshotState} → Moves a b → is_legal_transition a b ≡ true
unfolding is_legal_transition
Moves-is_legal_transition {a} Moves.still = ground arith
Moves-is_legal_transition {a} (Moves.then_move {b} {c} m h) =
    is_legal_transition-then a b c (Moves-is_legal_transition m) h

pub judge_states-cons :
    (a b : SnapshotState) (rest : List SnapshotState)
    → is_legal_transition a b ≡ true
    → judge_states (a ∷ b ∷ rest) ≡ judge_states (b ∷ rest)
unfolding judge_states last all_legal
judge_states-cons a b rest h = ground arith

-- The audit came to its verdict in time: some sample of `polls + 1` from the one behind `first` polls
-- on was terminal, and it agrees, or none was, and the snapshot is stuck.
pub data InTime (s : ℕ → SnapshotState) (first polls : ℕ) (v : Verdict) : Type 0 where
  over :
      (k : ℕ)
      → k ≤ polls
      → is_terminal (s (first + k)) ≡ true
      → v ≡ Verdict.agree
      → InTime s first polls v
  never :
      ((k : ℕ) → k ≤ polls → is_terminal (s (first + k)) ≡ false)
      → v ≡ Verdict.stuck
      → InTime s first polls v

module _ (sampled : ℕ → Observation) (s : ℕ → SnapshotState) where
  -- The observations from the one behind `polls` polls on.
  unfoldable pub later : ℕ → ℕ → List Observation
  later zero polls = []
  later (suc left) polls =
      let rest = later left (suc polls) in
      elim (is_terminal (s polls)) [ true ↦ [] | false ↦ sampled (suc polls) ∷ rest ]

  pub length-later : (left polls : ℕ) → length (later left polls) ≤ left
  unfolding later
  length-later zero polls = omega arith
  length-later (suc left) polls = ground (arith, length-later left (suc polls))

  pub later_ended : (left polls : ℕ) → is_terminal (s polls) ≡ true → later (suc left) polls ≡ []
  unfolding later
  later_ended left polls h = ground arith

  pub later_active :
      (left polls : ℕ)
      → is_terminal (s polls) ≡ false
      → later (suc left) polls ≡ sampled (suc polls) ∷ later left (suc polls)
  unfolding later
  later_active left polls h = ground arith

  pub length-later_active :
      (left polls : ℕ)
      → ((k : ℕ) → k ≤ left → is_terminal (s (polls + k)) ≡ false)
      → length (later left polls) ≡ left
  unfolding later
  length-later_active zero polls h = refl
  length-later_active (suc left) polls h =
      let now : is_terminal (s polls) ≡ false =
        subst (λ n. is_terminal (s n) ≡ false) {x = polls + 0} (omega arith) (h 0 (omega arith)) in
      let after : (k : ℕ) → k ≤ left → is_terminal (s (suc polls + k)) ≡ false = λ k le.
        subst (λ n. is_terminal (s n) ≡ false) {x = polls + suc k} (omega arith)
          (h (suc k) (omega arith)) in
      let rest = length-later_active left (suc polls) after in
      rw (later_active left polls now) (omega (arith, rest))

  module _ (found : (n : ℕ) → (sampled n).state ≡ some (s n)) where
    pub any_missing-later :
        (left polls : ℕ) → any_missing (sampled polls ∷ later left polls) ≡ false
    unfolding later
    any_missing-later zero polls = rw (found polls)
    any_missing-later (suc left) polls = elim (Bool-cases (is_terminal (s polls))) [
      | inl ended ↦ rw (ended, found polls)
      | inr active ↦ rw active (ground (arith, found polls, any_missing-later left (suc polls)))
    ]

    pub states-cons :
        (polls : ℕ) (rest : List Observation)
        → states (sampled polls ∷ rest) ≡ s polls ∷ states rest
    unfolding states
    states-cons polls rest = rw (found polls)

    ended_now :
        (polls left : ℕ)
        → is_terminal (s polls) ≡ true
        → InTime s polls left (judge_states (s polls ∷ []))
    unfolding judge_states last all_legal
    ended_now polls left h =
        InTime.over zero (omega arith)
          (subst (λ n. is_terminal (s n) ≡ true) {x = polls} (omega arith) h) (rw h)

    active_last :
        (polls : ℕ) → is_terminal (s polls) ≡ false → InTime s polls 0 (judge_states (s polls ∷ []))
    unfolding judge_states last
    active_last polls h =
        InTime.never (λ k le. subst (λ n. is_terminal (s n) ≡ false) {x = polls} (omega arith) h)
          (rw h)

    shifted :
        (polls : ℕ) (left : ℕ)
        → is_terminal (s polls) ≡ false
        → ((k : ℕ) → k ≤ left → is_terminal (s (suc polls + k)) ≡ false)
        → (k : ℕ) → k ≤ suc left
        → is_terminal (s (polls + k)) ≡ false
    shifted polls left now after zero h =
        subst (λ n. is_terminal (s n) ≡ false) {x = polls} (omega arith) now
    shifted polls left now after (suc k) h =
        subst (λ n. is_terminal (s n) ≡ false) {x = suc polls + k} (omega arith)
          (after k (omega arith))

    module _ (step : (n : ℕ) → is_legal_transition (s n) (s (suc n)) ≡ true) where
      earlier :
          (left polls : ℕ) (v w : Verdict)
          → is_terminal (s polls) ≡ false
          → v ≡ w
          → InTime s (suc polls) left v
          → InTime s polls (suc left) w
      earlier left polls v w now e (InTime.over k h t a) =
          InTime.over (suc k) (omega arith)
            (subst (λ n. is_terminal (s n) ≡ true) {x = suc polls + k} (omega arith) t) (sym e ∙ a)
      earlier left polls v w now e (InTime.never n b) =
          InTime.never (shifted polls left now n) (sym e ∙ b)

      pub judge_states-later :
          (left polls : ℕ)
          → InTime s polls left (judge_states (s polls ∷ states (later left polls)))
      unfolding later states
      judge_states-later zero polls = elim (Bool-cases (is_terminal (s polls))) [
        | inl ended ↦ ended_now polls 0 ended
        | inr active ↦ active_last polls active
      ]
      judge_states-later (suc left) polls = elim (Bool-cases (is_terminal (s polls))) [
        | inl ended ↦ rw (later_ended left polls ended) (ended_now polls (suc left) ended)
        | inr active ↦
            rw (later_active left polls active, states-cons (suc polls) (later left (suc polls)))
              (earlier left polls (judge_states (s (suc polls) ∷ states (later left (suc polls)))) _
                active (sym (judge_states-cons (s polls) (s (suc polls)) _ (step polls)))
                (judge_states-later left (suc polls)))
      ]
