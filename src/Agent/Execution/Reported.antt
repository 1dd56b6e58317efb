-- ===== src/Agent/Execution/Reported.antt =====
-- lib.rs of the agent and api.rs of the server together: what the server knows of a task as the
-- agent executes it.
use bigtop.Common.{
  Bool, Bool-cases, ◌≡◌, refl, ap, ◌∙◌, true, false, none, some, Option, List, [], ◌∷◌, arith, get,
  insert, get-insert_self, Option-cases, inl, inr,
}
use bigtop.Core.Ids.{TaskId}
use bigtop.Core.Types.{Task, TaskState, is_terminal}
use bigtop.Core.Wire.{SetTaskStateRequest, PushLogsRequest}
use bigtop.Server.State.Logs
use bigtop.Server.State.Tasks.{with_state}
use bigtop.Server.Api
use bigtop.Server.Api.{AppState, Response, set_task_state}
use bigtop.Server.Api.Answers.{Answered, set_task_state-Answered}
use bigtop.Agent.Shell.{AgentError}
use bigtop.Agent.Supervise.{Phase, Life, Lives, begun}
use bigtop.Agent.Supervise.Ends.{supervised_forever, supervised_to_end}
use bigtop.Agent.Firecracker.Machine.{AgentResult, ok, err}
use bigtop.Agent.Execution.{Sent, logs, state, Exit, is_told, terminal_state, execute_task}

-- What the server does with a message of the agent.
pub deliver : TaskId → Sent → AppState → AppState
deliver id (logs lines) app = (Api.push_logs id (record { lines = lines }) app).1
deliver id (state s code) app = (set_task_state id (record { state = s; exit_code = code }) app).1

pub deliver_all : TaskId → List Sent → AppState → AppState
deliver_all id [] app = app
deliver_all id (sent ∷ rest) app = deliver_all id rest (deliver id sent app)

tasks-push_logs :
    (id : TaskId) (req : PushLogsRequest) (app : AppState)
    → (Api.push_logs id req app).1.inner.tasks ≡ app.inner.tasks
unfolding Api.push_logs Logs.push_logs
tasks-push_logs id req app = elim (Option-cases (get id app.inner.logs)) [
  | inl missing ↦ rw (missing, Logs.push_logs) refl
  | inr (lines, found) ↦ rw (found, Logs.push_logs) refl
]

some-eq : {a b : Task} {o : Option Task} → o ≡ some a → o ≡ some b → a ≡ b
some-eq h k = cc

filed :
    (id : TaskId) (req : SetTaskStateRequest) (app after : AppState) (task other : Task)
    → get id app.inner.tasks ≡ some task
    → get id app.inner.tasks ≡ some other
    → after.inner.tasks ≡ insert id (with_state other req.state req.exit_code) app.inner.tasks
    → get id after.inner.tasks ≡ some (with_state task req.state req.exit_code)
filed id req app after task other g h e =
    ap (get id) e
    ∙ get-insert_self id (with_state other req.state req.exit_code) app.inner.tasks
    ∙ ap (λ t. some (with_state t req.state req.exit_code)) (some-eq h g)

-- A report about a task that is not over takes effect, also where the journal fails.
live-Answered :
    (id : TaskId) (req : SetTaskStateRequest) (app : AppState) (task : Task)
    (r : Response (Unit {0}) × AppState)
    → get id app.inner.tasks ≡ some task
    → is_terminal task.state ≡ false
    → Answered id req app r
    → get id r.1.inner.tasks ≡ some (with_state task req.state req.exit_code)
live-Answered id req app task _ g live (Answered.unknown message missing) = absurd (ground arith)
live-Answered id req app task _ g live (Answered.over message other h end) = absurd (ground arith)
live-Answered id req app task _ g live (Answered.unwritten message other after h l j e) =
    filed id req app after task other g h e
live-Answered id req app task _ g live (Answered.done other after h l e) =
    filed id req app after task other g h e

-- The last report of a task that runs.
over :
    (id : TaskId) (exit : Exit) (app : AppState) (task : Task)
    → get id app.inner.tasks ≡ some (record task { state = TaskState.running })
    → get id
        (set_task_state id
          (record { state = (terminal_state exit).0; exit_code = (terminal_state exit).1 })
          app).1.inner.tasks
      ≡ some (record task { state = (terminal_state exit).0; exit_code = (terminal_state exit).1 })
unfolding terminal_state is_terminal
over id (Exit.exited true code) app task g =
    live-Answered id _ app (record task { state = TaskState.running }) _ g refl
      (set_task_state-Answered id (record { state = TaskState.succeeded; exit_code = code }) app)
over id (Exit.exited false code) app task g =
    live-Answered id _ app (record task { state = TaskState.running }) _ g refl
      (set_task_state-Answered id (record { state = TaskState.failed; exit_code = code }) app)
over id Exit.lost app task g =
    live-Answered id _ app (record task { state = TaskState.running }) _ g refl
      (set_task_state-Answered id (record { state = TaskState.failed; exit_code = none }) app)

-- What the server has of a task, where `l` is how far its execution has come behind the boot, with or
-- without the vsock hub.
pub data Reported (hub : Bool) (l : Life) (exit : Exit) (task : Task) (found : Option Task)
    : AgentResult (Unit {0}) → Type 0 where
  unbooted :
      {e : AgentError}
      → found ≡ some (record task { state = TaskState.failed; exit_code = none })
      → Reported hub l exit task found (err e)
  -- With the hub, `supervise` does not return.
  forever :
      hub ≡ true
      → found ≡ some (record task { state = TaskState.running })
      → Reported hub l exit task found (ok tt)
  under_way :
      hub ≡ false
      → is_told l.phase ≡ false
      → (m : Life) × Lives l m × (m.phase ≡ Phase.finished)
      → found ≡ some (record task { state = TaskState.running })
      → Reported hub l exit task found (ok tt)
  ended :
      hub ≡ false
      → is_told l.phase ≡ true
      → found
        ≡ some
            (record task { state = (terminal_state exit).0; exit_code = (terminal_state exit).1 })
      → Reported hub l exit task found (ok tt)

module _ (id : TaskId) (exit : Exit) (app : AppState) (task : Task)
    (g : get id app.inner.tasks ≡ some task) (live : is_terminal task.state ≡ false) where
  after : AgentResult (Unit {0}) → Phase → Option Task
  after booted phase = get id (deliver_all id (execute_task booted phase exit) app).inner.tasks

  -- The server behind the report that the task runs.
  abbrev begun_at : AppState
  begun_at = (set_task_state id (record { state = TaskState.running; exit_code = none }) app).1

  running_at : get id begun_at.inner.tasks ≡ some (record task { state = TaskState.running })
  unfolding is_terminal
  running_at =
      let told : SetTaskStateRequest = record { state = TaskState.running; exit_code = none } in
      live-Answered id told app task _ g live (set_task_state-Answered id told app)

  after-untold :
      (phase : Phase)
      → is_told phase ≡ false
      → after (ok tt) phase ≡ some (record task { state = TaskState.running })
  unfolding after execute_task deliver_all deliver
  after-untold phase h = rw (h, execute_task) running_at

  after-told :
      (phase : Phase)
      → is_told phase ≡ true
      → after (ok tt) phase
        ≡ some
            (record task { state = (terminal_state exit).0; exit_code = (terminal_state exit).1 })
  unfolding after execute_task deliver_all deliver
  after-told phase h = rw (h, execute_task) (over id exit begun_at task running_at)

  after-err :
      (e : AgentError) (phase : Phase)
      → after (err e) phase ≡ some (record task { state = TaskState.failed; exit_code = none })
  unfolding after execute_task deliver_all deliver is_terminal
  after-err e phase =
      let told : AppState = (Api.push_logs id _ app).1 in
      let lost : SetTaskStateRequest = record { state = TaskState.failed; exit_code = none } in
      live-Answered id lost told task _ (ap (get id) (tasks-push_logs id _ app) ∙ g) live
        (set_task_state-Answered id lost told)

  -- When the agent's reports about a task (those of `execute_task`, without the lines of the task
  -- itself) reach the server in order and with no other request between them, and the task was on the
  -- server and not over, this is what the server has of it. Where the boot failed, the task has failed.
  -- With the vsock hub, which every agent with Firecracker has, a task that was booted stays `running`
  -- on the server, however far its execution comes. Without it, the task is `running` until its
  -- terminal state is reported, to which its execution can still come, and then it has succeeded, if
  -- the process ended without an error, and else failed, with its exit code, if there is one. This is
  -- so whether the journal can be written or not.
  pub execute_task-Reported :
      (hub : Bool) (booted : AgentResult (Unit {0})) (l : Life)
      → Lives (begun hub) l
      → Reported hub l exit task
          (get id (deliver_all id (execute_task booted l.phase exit) app).inner.tasks)
          booted
  unfolding after is_told
  execute_task-Reported hub (err e) l run = Reported.unbooted (after-err e l.phase)
  execute_task-Reported true (ok booted) l run =
      Reported.forever refl (after-untold l.phase (ap is_told (supervised_forever l run)))
  execute_task-Reported false (ok booted) l run = elim (Bool-cases (is_told l.phase)) [
    | inl told ↦ Reported.ended refl told (after-told l.phase told)
    | inr untold ↦
        Reported.under_way refl untold (supervised_to_end l run) (after-untold l.phase untold)
  ]
