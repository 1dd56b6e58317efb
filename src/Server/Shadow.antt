-- ===== src/Server/Shadow.antt =====
-- crates/bigtop-server/src/harvest_shadow.rs: the audit of snapshot requests, up to the verdict over
-- its observations. The workflow engine and the verdict database are not code of the repository.
pub mod Verdicts
pub mod Handle
pub mod Audit
pub mod Driver
pub mod Watched
pub mod Later
use bigtop.Common.{
  ℕ, String, Bool, true, false, ◌&&◌, Option, none, some, List, [], ◌∷◌, any, is_some, not,
  if◌then◌else◌,
}
use bigtop.Core.Ids.{TaskId, NodeId, SnapshotId}
use bigtop.Core.Snapshots.{SnapshotState, requested, in_progress, done, failed}

pub record ShadowInput : Type 0 where
  pub snapshot_id : SnapshotId
  pub task_id : TaskId
  pub node_id : NodeId
  pub poll_secs : ℕ
  pub max_polls : ℕ

pub record Observation : Type 0 where
  pub state : Option SnapshotState
  pub error : Option String
  pub mem_file_path : Option String
  pub snapshot_path : Option String
  pub observed_at : ℕ

pub data Verdict : Type 0 where
  pending agree stuck missing harvest_error : Verdict

unfoldable pub as_str : Verdict → String
as_str pending = "pending"
as_str agree = "agree"
as_str stuck = "stuck"
as_str missing = "missing"
as_str harvest_error = "harvest_error"

unfoldable pub is_legal_transition : SnapshotState → SnapshotState → Bool
is_legal_transition requested _ = true
is_legal_transition in_progress requested = false
is_legal_transition in_progress _ = true
is_legal_transition done done = true
is_legal_transition failed failed = true
is_legal_transition _ _ = false

unfoldable pub is_terminal : SnapshotState → Bool
is_terminal done = true
is_terminal failed = true
is_terminal _ = false

-- `observations.iter().any(|o| o.state.is_none())`
abbrev pub any_missing : List Observation → Bool
any_missing observations = any (λ o. not (is_some o.state)) observations

-- `observations.iter().filter_map(|o| o.state)`
unfoldable pub states : List Observation → List SnapshotState
states [] = []
states (o ∷ observations) =
    let rest = states observations in elim o.state [ none ↦ rest | some state ↦ state ∷ rest ]

-- The loop over `states.windows(2)`.
unfoldable pub all_legal : List SnapshotState → Bool
unfolding is_legal_transition
all_legal [] = true
all_legal (a ∷ []) = true
all_legal (a ∷ b ∷ rest) = is_legal_transition a b && all_legal (b ∷ rest)

-- `states.last()`
unfoldable pub last : List SnapshotState → Option SnapshotState
last [] = none
last (a ∷ []) = some a
last (a ∷ b ∷ rest) = last (b ∷ rest)

unfoldable pub judge_states : List SnapshotState → Verdict
unfolding last all_legal is_terminal
judge_states states = elim (last states) [
  | none ↦ stuck
  | some state ↦ if is_terminal state && all_legal states then agree else stuck
]

unfoldable pub judge : List Observation → Verdict
unfolding states judge_states
judge observations =
    if any_missing observations then missing else judge_states (states observations)
