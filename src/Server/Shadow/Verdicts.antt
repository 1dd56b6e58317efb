-- ===== src/Server/Shadow/Verdicts.antt =====
-- harvest_shadow.rs: what the verdict of the audit means for the server's snapshot states.
use bigtop.Common.{
  ◌≡◌, ◌↔◌, ◌⊎◌, inl, inr, true, false, List, [], ◌∷◌, arith, Bool-cases, subst, sym,
}
use bigtop.Core.Snapshots.{SnapshotState}
use bigtop.Server.State.Snapshots.{legal}
use bigtop.Server.Shadow.{
  Observation, Verdict, is_legal_transition, is_terminal, any_missing, states, all_legal, last,
  judge_states, judge,
}

-- The states that an audit sees when each one is the one before, or one that the server may move to
-- from there, and the last one is terminal.
pub data Trace : List SnapshotState → Type 0 where
  settled : {a : SnapshotState} → is_terminal a ≡ true → Trace (a ∷ [])
  stayed : {a : SnapshotState} {rest : List SnapshotState} → Trace (a ∷ rest) → Trace (a ∷ a ∷ rest)
  moved :
      {a b : SnapshotState} {rest : List SnapshotState}
      → legal a b ≡ true
      → Trace (b ∷ rest)
      → Trace (a ∷ b ∷ rest)

-- The audit's table is that of the server, with staying put.
is_legal_transition-legal :
    (a b : SnapshotState) → is_legal_transition a b ≡ true → (a ≡ b) ⊎ (legal a b ≡ true)
unfolding is_legal_transition legal
is_legal_transition-legal a b h = ground arith

legal-is_legal_transition :
    (a b : SnapshotState) → legal a b ≡ true → is_legal_transition a b ≡ true
unfolding is_legal_transition legal
legal-is_legal_transition a b h = ground arith

is_legal_transition-same : (a : SnapshotState) → is_legal_transition a a ≡ true
unfolding is_legal_transition
is_legal_transition-same a = ground arith

judge_states-cons :
    (a b : SnapshotState) (rest : List SnapshotState)
    → judge_states (a ∷ b ∷ rest) ≡ Verdict.agree
    → (is_legal_transition a b ≡ true) × (judge_states (b ∷ rest) ≡ Verdict.agree)
unfolding judge_states last all_legal
judge_states-cons a b rest h = ground arith

cons-judge_states :
    (a b : SnapshotState) (rest : List SnapshotState)
    → is_legal_transition a b ≡ true
    → judge_states (b ∷ rest) ≡ Verdict.agree
    → judge_states (a ∷ b ∷ rest) ≡ Verdict.agree
unfolding judge_states last all_legal
cons-judge_states a b rest ok' h = ground arith

judge_states-Trace : (xs : List SnapshotState) → judge_states xs ≡ Verdict.agree → Trace xs
unfolding judge_states last all_legal
judge_states-Trace [] h = absurd (ground arith)
judge_states-Trace (a ∷ []) h = Trace.settled (ground arith)
judge_states-Trace (a ∷ b ∷ rest) h =
    let (step, later) = judge_states-cons a b rest h in
    let tail = judge_states-Trace (b ∷ rest) later in
    elim (is_legal_transition-legal a b step) [
      | inl same ↦ subst (λ x. Trace (x ∷ b ∷ rest)) (sym same) (Trace.stayed tail)
      | inr go ↦ Trace.moved go tail
    ]

Trace-judge_states : (xs : List SnapshotState) → Trace xs → judge_states xs ≡ Verdict.agree
unfolding judge_states last all_legal
Trace-judge_states _ (Trace.settled {a} h) = ground arith
Trace-judge_states _ (Trace.stayed {a} {rest} t) =
    cons-judge_states a a rest (is_legal_transition-same a) (Trace-judge_states (a ∷ rest) t)
Trace-judge_states _ (Trace.moved {a} {b} {rest} go t) =
    cons-judge_states a b rest (legal-is_legal_transition a b go) (Trace-judge_states (b ∷ rest) t)

-- The audit agrees exactly where no observation misses the record and the observed states form a
-- trace of the server: each one is the one before or one that the server's own table allows from
-- there, and the last one is `done` or `failed`.
pub judge-Trace :
    (observations : List Observation)
    → (judge observations ≡ Verdict.agree)
      ↔ ((any_missing observations ≡ false) × Trace (states observations))
unfolding judge
judge-Trace observations = (
  (λ h. elim (Bool-cases (any_missing observations)) [
    | inl gone ↦ absurd (ground arith)
    | inr seen ↦ (seen, judge_states-Trace (states observations) (ground arith))
  ]),
  (λ p. ground (arith, p.0, Trace-judge_states (states observations) p.1)),
)
