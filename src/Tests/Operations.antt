-- ===== src/Tests/Operations.antt =====
-- The operations on the states of a concrete run.
use bigtop.Common.{◌≡◌, refl, ap, none, some, [], ◌∷◌, get, insert, false}
use bigtop.Core.Error.{Result, ok}
use bigtop.Core.Resources.{fits_in, saturating_add}
use bigtop.Core.Snapshots.{SnapshotState, SnapshotRecord}
use bigtop.Core.Types.{Task, TaskState, is_alive, is_pending, is_running, holds_resources}
use bigtop.Core.Wire.{ReportSnapshotResult}
use bigtop.Server.Ipam.{allocate, gateway_for}
use bigtop.Server.Ipam.Search.{first_free}
use bigtop.Server.State.{StateInner, journal_op}
use bigtop.Server.State.Invariant.{Inv}
use bigtop.Server.State.Jobs.{create_job}
use bigtop.Server.State.Nodes.{register_node}
use bigtop.Server.State.Tasks.{set_task_state}
use bigtop.Server.State.Snapshots.{request_snapshot, report_snapshot_result}
use bigtop.Server.State.Logs.{push_logs}
use bigtop.Server.Scheduler.{tick}
use bigtop.Server.Scheduler.Pick.{pick_node}
use bigtop.Server.Replay.Same.{Extends}
use bigtop.Tests.{to_json, submitted, started, asked, web}
use bigtop.Server.State.Tail.{Pushed, push_logs-Pushed}
use bigtop.Server.State.Reports.{Moved, report_snapshot_result-Moved}
use bigtop.Server.Scheduler.Picked.{Picked, pick_node-Picked}
use bigtop.Server.Replay.Transitions.{set_task_state-Extends}
use bigtop.Server.Replay.Pass.{tick-Extends}
use bigtop.Core.Types.{TaskState}
use bigtop.Agent.Vsock.{LogFrame, LogStream, Decoded, encode, decode}
use bigtop.Agent.Vsock.Frames.{decode-encode}
use bigtop.Common.{◌↔◌, List, ◌++◌, arith}
use bigtop.Server.Shadow.{Observation, Verdict, judge, any_missing, states}
use bigtop.Server.Shadow.Verdicts.{Trace, judge-Trace}
use bigtop.Common.Sort.{sort_by}
use bigtop.Server.State.Views.{task_snapshots}
use bigtop.Server.State.Listings.{Listed, task_snapshots-Listed}
use bigtop.Tests.Restarts.{pass, at_submitted, at_started}

tick-Extends_example :
    Inv (tick to_json 2 submitted).1 × Extends 9 submitted (tick to_json 2 submitted).1
tick-Extends_example =
    tick-Extends to_json 2 9 submitted at_submitted.0 at_submitted.1.attached
      (ap (λ (r : Result (Unit {0}) × StateInner). r.0) pass)

finishes : (set_task_state "task-2" TaskState.succeeded none started).0 ≡ ok tt
unfolding tick create_job set_task_state request_snapshot report_snapshot_result register_node
    journal_op insert is_alive is_pending get is_running pick_node holds_resources fits_in allocate
    first_free gateway_for saturating_add push_logs
finishes = refl

set_task_state-Extends_example :
    Extends 9 started (set_task_state "task-2" TaskState.succeeded none started).1
set_task_state-Extends_example =
    set_task_state-Extends 9 "task-2" TaskState.succeeded none started at_started.1.attached
      finishes

abbrev report : ReportSnapshotResult
report = record {
  state = SnapshotState.done;
  node_id = "node-1";
  mem_file_path = some "/snap/mem";
  snapshot_path = none;
  error = none;
}

answered : (a : SnapshotRecord) × ((report_snapshot_result "task-2" "snap-1" report asked).0 ≡ ok a)
unfolding tick create_job set_task_state request_snapshot report_snapshot_result register_node
    journal_op insert is_alive is_pending get is_running pick_node holds_resources fits_in allocate
    first_free gateway_for saturating_add push_logs
answered = (_, refl)

report_snapshot_result-Moved_example :
    Moved "task-2" "snap-1" report answered.0 asked
      (report_snapshot_result "task-2" "snap-1" report asked).1
report_snapshot_result-Moved_example =
    report_snapshot_result-Moved "task-2" "snap-1" report answered.0 asked answered.1

pushed : (push_logs "task-2" ("up" ∷ []) submitted).0 ≡ ok tt
unfolding tick create_job set_task_state request_snapshot report_snapshot_result register_node
    journal_op insert is_alive is_pending get is_running pick_node holds_resources fits_in allocate
    first_free gateway_for saturating_add push_logs
pushed = refl

push_logs-Pushed_example :
    Pushed "task-2" ("up" ∷ []) submitted (push_logs "task-2" ("up" ∷ []) submitted).1
push_logs-Pushed_example = push_logs-Pushed "task-2" ("up" ∷ []) submitted pushed

-- A task of `site`.
abbrev small : Task
small = record {
  id = "task-9";
  job_id = "job-1";
  name = "web";
  spec = web;
  state = TaskState.pending;
  assigned_node = none;
  exit_code = none;
  network = none;
}

pick_node-Picked_example : Picked submitted small 2 (pick_node submitted small 2)
pick_node-Picked_example = pick_node-Picked submitted small 2 at_submitted.0.nodes

abbrev line : LogFrame
line = record { stream = LogStream.stdout; payload = 104 ∷ 105 ∷ [] }

decode-encode_example : decode (encode line ++ 0 ∷ 0 ∷ []) ≡ Decoded.frame line (0 ∷ 0 ∷ [])
decode-encode_example = decode-encode line (0 ∷ 0 ∷ []) (omega arith)

listed : (out : List SnapshotRecord) × (task_snapshots asked "task-2" ≡ ok out)
unfolding tick create_job set_task_state request_snapshot report_snapshot_result register_node
    journal_op insert is_alive is_pending get is_running pick_node holds_resources fits_in allocate
    first_free gateway_for saturating_add push_logs task_snapshots sort_by
listed = (_, refl)

task_snapshots-Listed_example : Listed asked "task-2" listed.0
task_snapshots-Listed_example = task_snapshots-Listed asked "task-2" listed.0 listed.1

abbrev seen : SnapshotState → Observation
seen state = record {
  state = some state;
  error = none;
  mem_file_path = none;
  snapshot_path = none;
  observed_at = 7;
}

-- The audit polled twice before the agent reported.
abbrev audit : List Observation
audit = seen SnapshotState.requested ∷ seen SnapshotState.requested ∷ seen SnapshotState.done ∷ []

judge-Trace_example :
    (judge audit ≡ Verdict.agree) ↔ ((any_missing audit ≡ false) × Trace (states audit))
judge-Trace_example = judge-Trace audit

agrees : judge audit ≡ Verdict.agree
unfolding judge
agrees = refl
