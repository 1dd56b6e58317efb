-- ===== src/Core/Snapshots.antt =====
-- crates/bigtop-core/src/snapshots.rs: snapshot requests, their records and their life cycle. A
-- record's `restore_task_spec` stands with the task types.
use bigtop.Common.{ℕ, String, Bool, true, false, Option}
use bigtop.Core.Ids.{TaskId, NodeId, SnapshotId}

pub data SnapshotType : Type 0 where
  full diff : SnapshotType

pub record SnapshotSpec : Type 0 where
  pub snapshot_type : SnapshotType
  pub mem_file_path : String
  pub snapshot_path : String

unfoldable pub with_defaults : SnapshotType → SnapshotSpec
with_defaults t = record { snapshot_type = t; mem_file_path = ""; snapshot_path = "" }

pub record SnapshotLoadSpec : Type 0 where
  pub mem_file_path : String
  pub snapshot_path : String
  pub enable_diff_snapshots : Bool

pub data SnapshotPolicy : Type 0 where
  never : SnapshotPolicy
  on_success : SnapshotSpec → SnapshotPolicy

pub data SnapshotState : Type 0 where
  requested in_progress done failed : SnapshotState

unfoldable pub is_terminal : SnapshotState → Bool
is_terminal done = true
is_terminal failed = true
is_terminal _ = false

-- The derived `Debug` form, which error messages show.
unfoldable pub debug : SnapshotState → String
debug requested = "Requested"
debug in_progress = "InProgress"
debug done = "Done"
debug failed = "Failed"

-- A time is a number of nanoseconds.
pub record SnapshotRecord : Type 0 where
  pub id : SnapshotId
  pub task_id : TaskId
  pub node_id : NodeId
  pub spec : SnapshotSpec
  pub state : SnapshotState
  pub error : Option String
  pub created_at : ℕ
