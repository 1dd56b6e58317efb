-- ===== src/Tests/Restarts.antt =====
-- A run of the server from the start, and what its journal rebuilds.
use bigtop.Common.{◌≡◌, refl, none, [], get, insert}
use bigtop.Core.Error.{ok}
use bigtop.Core.Resources.{fits_in, saturating_add}
use bigtop.Core.Snapshots.{SnapshotRecord}
use bigtop.Core.Types.{TaskState, is_alive, is_pending, is_running, holds_resources}
use bigtop.Server.Ipam.{allocate, gateway_for}
use bigtop.Server.Ipam.Search.{first_free}
use bigtop.Server.State
use bigtop.Server.State.{StateInner, journal_op}
use bigtop.Server.State.Invariant.{Inv}
use bigtop.Server.State.Jobs.{create_job}
use bigtop.Server.State.Nodes.{register_node}
use bigtop.Server.State.Tasks.{set_task_state}
use bigtop.Server.State.Snapshots.{request_snapshot, report_snapshot_result}
use bigtop.Server.Scheduler.{tick}
use bigtop.Server.Scheduler.Pick.{pick_node}
use bigtop.Server.Replay.{apply_ops}
use bigtop.Server.Replay.Same.{Same, lines, Extends}
use bigtop.Server.Replay.Recovery.{opened, opened-Inv, Step, Run, run-Extends, apply_ops-lines}
use bigtop.Tests.{
  to_json, job, fresh, total, registered, submitted, placed, started, asked, request,
}

register :
    register_node "node-1" "alpha" "10.0.0.1:7000" total none 0 (opened [])
    ≡ (ok "node-1", registered)
unfolding tick create_job set_task_state request_snapshot report_snapshot_result register_node
    journal_op insert is_alive is_pending get is_running pick_node holds_resources fits_in allocate
    first_free gateway_for saturating_add
register = refl

submit : create_job job "job-1" fresh 1 registered ≡ (ok "job-1", submitted)
unfolding tick create_job set_task_state request_snapshot report_snapshot_result register_node
    journal_op insert is_alive is_pending get is_running pick_node holds_resources fits_in allocate
    first_free gateway_for saturating_add
submit = refl

pub pass : tick to_json 2 submitted ≡ (ok tt, placed)
unfolding tick create_job set_task_state request_snapshot report_snapshot_result register_node
    journal_op insert is_alive is_pending get is_running pick_node holds_resources fits_in allocate
    first_free gateway_for saturating_add
pass = refl

start : set_task_state "task-2" TaskState.running none placed ≡ (ok tt, started)
unfolding tick create_job set_task_state request_snapshot report_snapshot_result register_node
    journal_op insert is_alive is_pending get is_running pick_node holds_resources fits_in allocate
    first_free gateway_for saturating_add
start = refl

requested :
    (r : SnapshotRecord) × (request_snapshot "snap-1" "task-2" request 4 started ≡ (ok r, asked))
unfolding tick create_job set_task_state request_snapshot report_snapshot_result register_node
    journal_op insert is_alive is_pending get is_running pick_node holds_resources fits_in allocate
    first_free gateway_for saturating_add
requested = (_, refl)

pub up : Run to_json (opened []) registered
up =
    Run.next Run.start
      (Step.registered "node-1" "alpha" "10.0.0.1:7000" total none 0 "node-1" register)

filled : Run to_json (opened []) submitted
unfolding get register_node journal_op
filled = Run.next up (Step.created job "job-1" fresh 1 "job-1" (λ n. refl) submit)

ran : Run to_json (opened []) placed
ran = Run.next filled (Step.ticked 2 pass)

alive : Run to_json (opened []) started
unfolding is_pending
alive = Run.next ran (Step.reported "task-2" TaskState.running none refl start)

all : Run to_json (opened []) asked
all = Run.next alive (Step.asked "snap-1" "task-2" request 4 requested.0 requested.1)

-- What the run says of each state on the way.
reached : (u : StateInner) → Run to_json (opened []) u → Inv u × Extends 9 (opened []) u
reached u run = run-Extends to_json 9 (opened []) u (opened-Inv []) (_, refl) run

pub at_submitted : Inv submitted × Extends 9 (opened []) submitted
at_submitted = reached submitted filled

at_placed : Inv placed × Extends 9 (opened []) placed
at_placed = reached placed ran

pub at_started : Inv started × Extends 9 (opened []) started
at_started = reached started alive

at_asked : Inv asked × Extends 9 (opened []) asked
at_asked = reached asked all

apply_ops-lines_example : Same asked (apply_ops State.default (lines asked) 9)
apply_ops-lines_example = apply_ops-lines to_json 9 [] asked all
