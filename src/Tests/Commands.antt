-- ===== src/Tests/Commands.antt =====
-- Commands of the operator, and an agent that starts, polls and reports.
use bigtop.Common.{
  ℕ, inl, zero, suc, ◌+◌, ◌≡◌, refl, false, none, some, List, [], ◌∷◌, String, get, insert, arith,
  any, All, ◌==◌,
}
use bigtop.Common.Int.{pos}
use bigtop.Common.Sort.{sort_by}
use bigtop.Common.Distinct.{Distinct}
use bigtop.Core.Ids.{Kind, generate, TaskId, NodeId}
use bigtop.Core.Network.{ipv4}
use bigtop.Core.Snapshots.{SnapshotState, SnapshotType}
use bigtop.Core.Types.{Task, TaskState, is_terminal}
use bigtop.Core.Wire.{ReportSnapshotResult, PendingSnapshot}
use bigtop.Server.State.{journal_op}
use bigtop.Server.State.Snapshots.{report_snapshot_result}
use bigtop.Server.State.Views.{task_snapshots}
use bigtop.Server.State.Jobs.{create_job}
use bigtop.Server.State.Nodes.{register_node}
use bigtop.Server.State.Tasks.{set_task_state}
use bigtop.Server.State.Snapshots.{request_snapshot}
use bigtop.Core.Resources.{fits_in, saturating_add}
use bigtop.Core.Types.{is_alive, is_pending, is_running, holds_resources}
use bigtop.Server.Ipam.{allocate, gateway_for}
use bigtop.Server.Ipam.Search.{first_free}
use bigtop.Server.Scheduler.{tick}
use bigtop.Server.Scheduler.Pick.{pick_node}
use bigtop.Server.Api.{AppState, submit_job, list_snapshots}
use bigtop.Server.Api.Reads.{list_tasks}
use bigtop.Agent.Shell.{server, Shell, Outcome}
use bigtop.Agent.Firecracker.Machine.{AgentResult, ok, err}
use bigtop.Agent.Control.{AgentConfig, register_with_retry}
use bigtop.Agent.Polling.{Round, Polling, poll_loop}
use bigtop.Agent.Execution.{Exit, execute_task}
use bigtop.Agent.Control.Starts.{Paced, register_with_retry_ends}
use bigtop.Agent.Polling.Rounds.{snapshots_of, poll_loop-Distinct}
use bigtop.Agent.Polling.Polled.{Polled, poll-Polled}
use bigtop.Agent.Execution.Reported.{deliver_all, Reported, execute_task-Reported}
use bigtop.Agent.Supervise.{Phase, Life, begun, Step, Lives}
use bigtop.Cli.{Client, got}
use bigtop.Cli.Table.{ps_row}
use bigtop.Cli.Columns.{ps_row-generate}
use bigtop.Cli.Replies.{reply_of}
use bigtop.Cli.Restore.{Endpoint, cmd_snapshot_restore}
use bigtop.Cli.Restored.{Serves, Restored, cmd_snapshot_restore-Restored}
use bigtop.Tests.{asked, started, web}

-- ---------------------------------------------------------------- snapshot restore

abbrev report : ReportSnapshotResult
report = record {
  state = SnapshotState.done;
  node_id = "node-1";
  mem_file_path = some "/snap/mem";
  snapshot_path = none;
  error = none;
}

abbrev app : AppState
app = record { inner = (report_snapshot_result "task-2" "snap-1" report asked).1; shadow = none }

abbrev next : ℕ → TaskId
next n = "task-9"

-- The server's handlers, whatever the address.
abbrev endpoint : Endpoint
endpoint = record {
  tasks = λ c url. got (list_tasks app.inner);
  snapshots = λ c url. reply_of (list_snapshots "task-2" app);
  submit = λ c url job. reply_of (submit_job job "job-9" next 9 app).0;
}

abbrev client : Client
client = record { authorization = none }

serves : Serves app endpoint "http://127.0.0.1:4667" "task-2" "job-9" next 9
serves = record { tasks = λ c. refl; snapshots = λ c. refl; submit = λ c job. refl }

restores :
    cmd_snapshot_restore (inl client) endpoint "task-2" "snap-1" "http://127.0.0.1:4667"
    ≡ inl ("restoring snapshot snap-1 as job job-9" ∷ [])
unfolding cmd_snapshot_restore list_tasks list_snapshots submit_job sort_by task_snapshots tick
    create_job set_task_state request_snapshot report_snapshot_result register_node journal_op
    insert is_alive is_pending get is_running pick_node holds_resources fits_in allocate first_free
    gateway_for saturating_add
restores = refl

cmd_snapshot_restore-Restored_example : Restored app "task-2" "snap-1" "job-9" next 9
cmd_snapshot_restore-Restored_example =
    cmd_snapshot_restore-Restored app endpoint "http://127.0.0.1:4667" "task-2" "snap-1" "job-9"
      next 9 (inl client) serves ("restoring snapshot snap-1 as job job-9" ∷ []) restores

-- ---------------------------------------------------------------- ps

abbrev task : Task
task = record {
  id = "task-2";
  job_id = "job-1";
  name = "web";
  spec = web;
  state = TaskState.running;
  assigned_node = some "node-1";
  exit_code = none;
  network = none;
}

ps_row-generate_example :
    ps_row (record task { id = (generate Kind.task 1_767_225_600_000_000_000 4242 7).0 })
    ≡ ps_row (record task { id = (generate Kind.task 1_767_225_600_000_000_000 4242 8).0 })
ps_row-generate_example =
    ps_row-generate task 1_767_225_600_000_000_000 4242 7 8 (omega arith) (omega arith)

-- ---------------------------------------------------------------- an agent

-- Sixty-one attempts or more, all refused, each one over as soon as it starts.
abbrev refused : ℕ → ℕ → List (AgentResult NodeId × ℕ)
refused time zero = []
refused time (suc n) = (err (server "503 Service Unavailable"), time) ∷ refused (time + 500) n

refused-Paced : (time n : ℕ) → Paced time (refused time n)
refused-Paced time zero = tt
refused-Paced time (suc n) = (omega arith, refused-Paced (time + 500) n)

register_with_retry_ends_example :
    (r : AgentResult NodeId) × (register_with_retry (7 + 30_000) (refused 7 61) ≡ some r)
register_with_retry_ends_example =
    register_with_retry_ends 7 (refused 7 61) (refused-Paced 7 61) (omega arith)

abbrev config : AgentConfig
config = record {
  server_url = "http://127.0.0.1:4667";
  name = "alpha";
  heartbeat_interval = 2000;
  poll_interval = 1000;
  underlay_ip = some (ipv4 192 168 0 1);
  overlay_vni = some 42;
  api_token = none;
}

abbrev shell : Shell
shell = record { issued = []; outcomes = Outcome.failed "RTNETLINK answers: File exists" ∷ [] }

abbrev hash_key : String → ℕ
hash_key key = 81_985_529_216_486_895

abbrev asks : PendingSnapshot
asks = record {
  task_id = "task-2";
  snapshot_id = "snap-1";
  spec = record { snapshot_type = SnapshotType.full; mem_file_path = ""; snapshot_path = "" };
}

-- The server lists a task and, twice, a request; nothing that runs has finished.
abbrev round : Round
round = record {
  finished = λ id. false;
  assignments = ok (task ∷ []);
  requests = ok (asks ∷ asks ∷ []);
}

abbrev idle : Polling
idle = record { running = []; seen = [] }

poll-Polled_example : Polled round (task ∷ []) idle
poll-Polled_example = poll-Polled round (task ∷ []) idle refl

poll_loop-Distinct_example :
    Distinct (snapshots_of (poll_loop (round ∷ round ∷ []) idle))
    × All
        (λ id. any (λ s. s == id) idle.seen ≡ false)
        (snapshots_of (poll_loop (round ∷ round ∷ []) idle))
poll_loop-Distinct_example = poll_loop-Distinct (round ∷ round ∷ []) idle

abbrev failing : Exit
failing = Exit.exited false (some (pos 3))

abbrev serving : AppState
serving = record { inner = started; shadow = none }

runs : (t : Task) × (get "task-2" started.tasks ≡ some t) × (is_terminal t.state ≡ false)
unfolding tick create_job set_task_state register_node journal_op insert is_alive is_pending get
    is_running pick_node holds_resources fits_in allocate first_free gateway_for saturating_add
    is_terminal
runs = (_, refl, refl)

-- A process whose pipes have ended, and whose exit is reported.
abbrev done : Life
done = record (begun false) { stdout = false; stderr = false; phase = Phase.reported }

lived : Lives (begun false) done
unfolding begun
lived =
    Lives.then_step
      (Lives.then_step
        (Lives.then_step (Lives.then_step Lives.here Step.stdout_ended) Step.stderr_ended)
        (Step.drained refl refl refl refl))
      (Step.state_reported refl)

execute_task-Reported_example :
    Reported false done failing runs.0
      (get "task-2"
        (deliver_all "task-2" (execute_task (ok tt) done.phase failing) serving).inner.tasks)
      (ok tt)
execute_task-Reported_example =
    execute_task-Reported "task-2" failing serving runs.0 runs.1 runs.2 false (ok tt) done lived
