-- ===== src/Server/Shadow/Audit.antt =====
-- harvest_shadow.rs: the audit's workflow and its only activity. What the workflow engine returns for
-- an activity or a timer is an argument, by the number of polls before it.
use bigtop.Common.{
  ℕ, zero, suc, Bool, true, false, Option, none, some, List, [], ◌∷◌, ◌++◌, String, HashMap, get,
  ◌⊎◌, inl, inr, not, if◌then◌else◌, ◌==◌,
}
use bigtop.Core.Ids.{SnapshotId}
use bigtop.Core.Snapshots.{SnapshotRecord, SnapshotState}
use bigtop.Server.Shadow.{ShadowInput, Observation, Verdict, is_terminal, judge}

unfoldable pub non_empty : String → Option String
non_empty s = if s == "" then none else some s

-- `observe_body`, on the mirror, at the time of the sample.
unfoldable pub observe_body : HashMap SnapshotRecord → SnapshotId → ℕ → Observation
unfolding get non_empty
observe_body mirror snapshot_id now = elim (get snapshot_id mirror) [
  | none ↦ record {
    state = none;
    error = none;
    mem_file_path = none;
    snapshot_path = none;
    observed_at = now;
  }
  | some r ↦ record {
    state = some r.state;
    error = r.error;
    mem_file_path = non_empty r.spec.mem_file_path;
    snapshot_path = non_empty r.spec.snapshot_path;
    observed_at = now;
  }
]

-- `sample n` is the result of the activity behind `n` polls, an observation or an error; `timer n` is
-- the error of the timer `shadow-poll-n`, if it has one.
pub record Engine : Type 0 where
  pub sample : ℕ → Observation ⊎ String
  pub timer : ℕ → Option String

pub record ShadowOutput : Type 0 where
  pub snapshot_id : SnapshotId
  pub verdict : Verdict
  pub observations : List Observation

-- `obs.state.is_some_and(|s| !is_terminal(s))`
unfoldable pub is_active : Option SnapshotState → Bool
unfolding is_terminal
is_active none = false
is_active (some state) = not (is_terminal state)

-- The loop, with the polls that are left, those that were made, the last observation and all of them.
unfoldable pub watch : Engine → ℕ → ℕ → Observation → List Observation → List Observation ⊎ String
unfolding is_active
watch engine zero polls obs observations = inl observations
watch engine (suc left) polls obs observations = elim (is_active obs.state) [
  | false ↦ inl observations
  | true ↦ elim (engine.timer polls) [
    | some message ↦ inr message
    | none ↦ elim (engine.sample (suc polls)) [
      | inr message ↦ inr message
      | inl o ↦ watch engine left (suc polls) o (observations ++ o ∷ [])
    ]
  ]
]

-- `Ok(ShadowOutput { .. })`
unfoldable pub judged : ShadowInput → List Observation ⊎ String → ShadowOutput ⊎ String
judged input (inr message) = inr message
judged input (inl observations) = inl record {
  snapshot_id = input.snapshot_id;
  verdict = judge observations;
  observations = observations;
}

unfoldable pub snapshot_shadow : Engine → ShadowInput → ShadowOutput ⊎ String
unfolding watch judged judge
snapshot_shadow engine input = elim (engine.sample 0) [
  | inr message ↦ inr message
  | inl obs ↦ judged input (watch engine input.max_polls 0 obs (obs ∷ []))
]
