-- ===== src/Server/Journal.antt =====
-- crates/bigtop-server/src/journal.rs: the journal's operations and its writer. What a file holds is
-- kept as the list of its complete lines, one operation each; a failed write leaves no line. The
-- bytes are in Journal/File.
pub mod File
pub mod Lines
pub mod Crash
use bigtop.Common.{ℕ, ◌+◌, String, Option, none, some, List, [], ◌∷◌, ◌++◌}
use bigtop.Common.Int.{ℤ}
use bigtop.Core.Ids.{JobId, TaskId, NodeId, SnapshotId}
use bigtop.Core.Network.{Ipv4Addr, NetworkAssignment}
use bigtop.Core.Snapshots.{SnapshotRecord}
use bigtop.Core.Types.{Task, TaskState, NodeInfo}
use bigtop.Core.Wire.{ReportSnapshotResult}

pub data JournalOp : Type 0 where
  create_job : JobId → String → ℕ → List Task → JournalOp
  set_task_state : TaskId → TaskState → Option ℤ → JournalOp
  task_assigned : TaskId → NodeId → Option NetworkAssignment → Option String → JournalOp
  task_requeued : TaskId → JournalOp
  register_node : NodeInfo → JournalOp
  request_snapshot : SnapshotRecord → JournalOp
  report_snapshot : TaskId → SnapshotId → ReportSnapshotResult → JournalOp
  ipam_allocate : NodeId → TaskId → Ipv4Addr → JournalOp
  ipam_release : TaskId → JournalOp

-- `disk` is the environment: what becomes of each coming append, `some` with the message of the I/O
-- error or `none` for one that is written and synced. Past its end every append succeeds.
pub record JournalWriter : Type 0 where
  pub lines : List JournalOp
  pub ops_written : ℕ
  pub disk : List (Option String)

-- A write that is synced.
unfoldable pub write_line : JournalWriter → JournalOp → List (Option String) → JournalWriter
write_line w op disk = record {
  lines = w.lines ++ op ∷ [];
  ops_written = w.ops_written + 1;
  disk = disk;
}

-- `JournalWriter::append`: the error, if any, and the writer behind it.
unfoldable pub append : JournalWriter → JournalOp → Option String × JournalWriter
unfolding write_line
append w op = elim w.disk [
  | [] ↦ (none, write_line w op [])
  | outcome ∷ rest ↦ elim outcome [
    | none ↦ (none, write_line w op rest)
    | some message ↦ (some message, record w { disk = rest })
  ]
]
