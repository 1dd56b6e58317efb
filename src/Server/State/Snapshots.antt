-- ===== src/Server/State/Snapshots.antt =====
-- state.rs: requesting a snapshot and reporting its progress. The generated snapshot id is an
-- argument.
use bigtop.Common.{ℕ, Bool, true, false, none, get, insert, not, ◌==◌, unwrap_or, if◌then◌else◌}
use Prim.Native.String.{◌++◌ as append}
use bigtop.Core.Ids.{TaskId, NodeId, SnapshotId}
use bigtop.Core.Error.{Error, not_found, conflict}
use bigtop.Core.Snapshots.{
  SnapshotState, requested, in_progress, done, failed, SnapshotRecord, debug,
}
use bigtop.Core.Types.{Task, is_running, to_string}
use bigtop.Core.Wire.{RequestSnapshotRequest, ReportSnapshotResult}
use bigtop.Server.Journal.{JournalOp}
use bigtop.Server.State.{Exec, ◌>>=◌, ◌>>◌, pure, raise, gets, modify, ok_or, journal_op}

abbrev pub new_record : SnapshotId → TaskId → NodeId → RequestSnapshotRequest → ℕ → SnapshotRecord
new_record id task_id node_id req now = record {
  id = id;
  task_id = task_id;
  node_id = node_id;
  spec = record {
    snapshot_type = req.snapshot_type;
    mem_file_path = unwrap_or "" req.mem_file_path;
    snapshot_path = unwrap_or "" req.snapshot_path;
  };
  state = requested;
  error = none;
  created_at = now;
}

abbrev pub not_running : TaskId → Task → Error
not_running id task = conflict (
    append "task "
      (append id (append " is " (append (to_string task.state) " (must be running to snapshot)"))))

-- Record a request that was accepted.
unfoldable pub accept : SnapshotRecord → Exec SnapshotRecord
accept r = do
  modify (λ s. record s { snapshots = insert r.id r s.snapshots })
  journal_op (JournalOp.request_snapshot r)
  pure r

unfoldable pub request_snapshot :
    SnapshotId → TaskId → RequestSnapshotRequest → ℕ → Exec SnapshotRecord
unfolding accept
request_snapshot id task_id req now = do
  found ← gets (λ s. get task_id s.tasks)
  task ← ok_or found (not_found (append "task " task_id))
  if not (is_running task.state) then raise (not_running task_id task) else do
    node_id ←
        ok_or task.assigned_node
          (conflict (append "task " (append task_id " is running but assigned to no node")))
    accept (new_record id task_id node_id req now)

-- The table of `report_snapshot_result`.
unfoldable pub legal : SnapshotState → SnapshotState → Bool
legal requested in_progress = true
legal requested done = true
legal requested failed = true
legal in_progress done = true
legal in_progress failed = true
legal _ _ = false

unfoldable pub is_requested : SnapshotState → Bool
is_requested requested = true
is_requested _ = false

-- The record behind a report: its paths replace the requested ones.
abbrev pub reported : SnapshotRecord → ReportSnapshotResult → SnapshotRecord
reported r result = record r {
  state = result.state;
  node_id = result.node_id;
  error = result.error;
  spec = record r.spec {
    mem_file_path = unwrap_or r.spec.mem_file_path result.mem_file_path;
    snapshot_path = unwrap_or r.spec.snapshot_path result.snapshot_path;
  };
}

abbrev pub cannot_report : SnapshotId → Error
cannot_report id = conflict (append "snapshot " (append id ": agents cannot report Requested"))

abbrev pub unknown_snapshot : SnapshotId → TaskId → Error
unknown_snapshot id task_id =
    not_found (append "snapshot " (append id (append " for task " task_id)))

abbrev pub other_task : SnapshotId → TaskId → Error
other_task id task_id =
    not_found (append "snapshot " (append id (append " does not belong to task " task_id)))

abbrev pub illegal_move : SnapshotId → SnapshotState → SnapshotState → Error
illegal_move id from to = conflict (
    append "snapshot "
      (append id (append ": cannot move from " (append (debug from) (append " to " (debug to))))))

-- Record a report that passed the checks.
unfoldable pub update :
    TaskId → SnapshotId → ReportSnapshotResult → SnapshotRecord → Exec SnapshotRecord
update task_id snapshot_id result r = do
  modify (λ s. record s { snapshots = insert snapshot_id (reported r result) s.snapshots })
  journal_op (JournalOp.report_snapshot task_id snapshot_id result)
  pure (reported r result)

unfoldable pub report_snapshot_result :
    TaskId → SnapshotId → ReportSnapshotResult → Exec SnapshotRecord
unfolding legal is_requested update
report_snapshot_result task_id snapshot_id result =
    if is_requested result.state then raise (cannot_report snapshot_id) else do
      found ← gets (λ s. get snapshot_id s.snapshots)
      r ← ok_or found (unknown_snapshot snapshot_id task_id)
      if not (r.task_id == task_id)
          then raise (other_task snapshot_id task_id)
          else (if not (legal r.state result.state)
              then raise (illegal_move snapshot_id r.state result.state)
              else update task_id snapshot_id result r)
