-- ===== src/Tests/Lifetimes.antt =====
-- What becomes of the tasks and nodes of a concrete server.
use bigtop.Common.{Bool, true, ap, arith, ◌≡◌, refl, none, some, [], get, insert}
use bigtop.Core.Resources.{fits_in, saturating_add}
use bigtop.Core.Types.{Task, TaskState, is_alive, is_pending, is_running, holds_resources}
use bigtop.Server.Ipam.{allocate, gateway_for}
use bigtop.Server.Ipam.Search.{first_free}
use bigtop.Server.State.{StateInner, journal_op}
use bigtop.Server.State.Jobs.{create_job}
use bigtop.Server.State.Nodes.{register_node}
use bigtop.Server.State.Tasks.{set_task_state}
use bigtop.Server.Scheduler.{tick}
use bigtop.Server.Scheduler.Pick.{pick_node}
use bigtop.Server.Replay.Recovery.{opened}
use bigtop.Server.Lifecycle.{Survives}
use bigtop.Server.Lifecycle.Owners.{Leased}
use bigtop.Server.Lifecycle.Calls.{
  not_pending, Calls-Leased, Calls-Room, Call, Calls, Calls-Survives,
}
use bigtop.Core.Types.{NodeInfo}
use bigtop.Core.Error.{Result}
use bigtop.Server.Scheduler.Overcommit.{taken, Room, tick-taken}
use bigtop.Server.Scheduler.Orphans.{Filed}
use bigtop.Tests.Restarts.{at_submitted, pass}
use bigtop.Tests.{submitted, to_json, job, fresh, total, started}

-- The task ends, and the agent reports once more.
abbrev ended : StateInner
ended = (set_task_state "task-2" TaskState.succeeded none started).1

abbrev late : StateInner
late = (set_task_state "task-2" TaskState.failed none ended).1

-- Any state may be reported.
abbrev anything : TaskState → Bool
anything state = true

before : Calls to_json anything (opened []) ended
unfolding get register_node journal_op
before =
    Calls.then_call
      (Calls.then_call
        (Calls.then_call
          (Calls.then_call
            (Calls.then_call Calls.nothing (
              Call.registered "node-1" "alpha" "10.0.0.1:7000" total none 0
                (λ k a h. absurd (ground arith))))
            (Call.created job "job-1" fresh 1 (λ n. refl)))
          (Call.ticked 2))
        (Call.reported "task-2" TaskState.running none refl))
      (Call.reported "task-2" TaskState.succeeded none refl)

after : Calls to_json anything ended (tick to_json 9 late).1
after =
    Calls.then_call
      (Calls.then_call Calls.nothing (Call.reported "task-2" TaskState.failed none refl))
      (Call.ticked 9)

-- Two tasks hold addresses.
working : Calls to_json not_pending (opened []) started
unfolding get register_node journal_op is_pending
working =
    Calls.then_call
      (Calls.then_call
        (Calls.then_call
          (Calls.then_call Calls.nothing (
            Call.registered "node-1" "alpha" "10.0.0.1:7000" total none 0
              (λ k a h. absurd (ground arith))))
          (Call.created job "job-1" fresh 1 (λ n. refl)))
        (Call.ticked 2))
      (Call.reported "task-2" TaskState.running none refl)

Calls-Leased_example : Leased started
Calls-Leased_example = Calls-Leased to_json [] started working

over : (a : Task) × (get "task-2" ended.tasks ≡ some a)
unfolding tick create_job set_task_state register_node journal_op insert is_alive is_pending get
    is_running pick_node holds_resources fits_in allocate first_free gateway_for saturating_add
over = (_, refl)

Calls-Survives_example : Survives "task-2" over.0 (tick to_json 9 late).1.tasks
Calls-Survives_example =
    Calls-Survives to_json anything [] ended (tick to_json 9 late).1 before after "task-2" over.0
      over.1

-- The node behind the pass that places both tasks.
full : (node : NodeInfo) × (get "node-1" (tick to_json 2 submitted).1.nodes ≡ some node)
unfolding tick create_job set_task_state register_node journal_op insert is_alive is_pending get
    is_running pick_node holds_resources fits_in allocate first_free gateway_for saturating_add
full = (_, refl)

Calls-Room_example : Room started.nodes started.tasks
Calls-Room_example = Calls-Room to_json [] started working

filed : Filed submitted
filed = record { nodes = at_submitted.0.nodes; tasks = at_submitted.0.tasks }

tick-taken_example : full.0.used ≡ taken "node-1" (tick to_json 2 submitted).1.tasks
tick-taken_example =
    tick-taken to_json 2 submitted filed (ap (λ (r : Result (Unit {0}) × StateInner). r.0) pass)
      "node-1" full.0 full.1
