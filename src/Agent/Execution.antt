-- ===== src/Agent/Execution.antt =====
-- crates/bigtop-agent/src/lib.rs and runtime.rs: what an agent tells the server of a task that it runs,
-- and the command of a task that is a process.
pub mod Reported
use Prim.Native.String.{◌++◌}
use mathlib.Core.List.{foldl}
use bigtop.Common.{
  ℕ, ◌+◌, Bool, true, false, not, ◌&&◌, Option, none, some, List, [], ◌∷◌, String, HashMap, insert,
  filter, leb, eqb, ◌==◌, if◌then◌else◌,
}
use bigtop.Common.Int.{ℤ}
use bigtop.Core.Ids.{TaskId, NodeId, SnapshotId}
use bigtop.Core.Network.{Ipv4Addr}
use bigtop.Core.Resources.{Resources}
use bigtop.Core.Snapshots.{SnapshotSpec}
use bigtop.Core.Types.{Task, TaskState}
use bigtop.Core.Wire.{RegisterNodeRequest, PendingSnapshot, RequestSnapshotRequest}
use bigtop.Agent.Shell.{AgentError, server, config, Shell}
use bigtop.Agent.Firecracker.{FirecrackerConfig}
use bigtop.Agent.Firecracker.Boot.{FirecrackerRuntime}
use bigtop.Agent.Firecracker.Machine.{AgentResult, ok, err}
use bigtop.Agent.Overlay
use bigtop.Agent.Overlay.{OverlayManager}
use bigtop.Agent.Supervise.{Phase}
use bigtop.Agent.Requests.{spawn_new, dispatch}

-- What `execute_task` sends to the server, in order.
pub data Sent : Type 0 where
  logs : List String → Sent
  state : TaskState → Option ℤ → Sent

-- How the child ended: its status, or `wait` failed.
pub data Exit : Type 0 where
  exited : Bool → Option ℤ → Exit
  lost : Exit

unfoldable pub terminal_state : Exit → TaskState × Option ℤ
terminal_state (exited true code) = (TaskState.succeeded, code)
terminal_state (exited false code) = (TaskState.failed, code)
terminal_state lost = (TaskState.failed, none)

-- Whether `execute_task` has come to the report of the terminal state, behind `supervise`.
unfoldable pub is_told : Phase → Bool
is_told Phase.supervising = false
is_told Phase.exited = false
is_told Phase.reported = true
is_told Phase.finished = true

-- The reports of `execute_task` other than the lines of the task itself, where the boot fails, or
-- succeeds and the execution has come to `phase`.
unfoldable pub execute_task : AgentResult (Unit {0}) → Phase → Exit → List Sent
unfolding terminal_state is_told
execute_task (ok booted) phase exit =
    let (last, code) = terminal_state exit in
    if is_told phase
    then state TaskState.running none ∷ state last code ∷ []
    else state TaskState.running none ∷ []
execute_task (err e) phase exit =
    logs ("bigtop: spawn failed" ∷ []) ∷ state TaskState.failed none ∷ []

-- `ProcessRuntime::spawn`: the command that is started.
pub record ProcessCommand : Type 0 where
  pub program : String
  pub args : List String
  pub env : HashMap String

-- The variables of the task, and then its own over them.
unfoldable pub process_command : Task → ProcessCommand
unfolding insert
process_command task = record {
  program = task.spec.command;
  args = task.spec.args;
  env =
      insert "BIGTOP_JOB" task.job_id
        (insert "BIGTOP_TASK" task.id (foldl (λ env e. insert e.0 e.1 env) [] task.spec.env));
}
