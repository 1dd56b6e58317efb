-- ===== src/Server/Api.antt =====
-- crates/bigtop-server/src/api.rs: the handlers of the HTTP API that change the state, or can fail.
-- The framework decodes a request and routes it to its handler; the lock around the state makes each
-- handler one step.
pub mod Verdicts
pub mod Reads
pub mod Html
pub mod Answers
pub mod Lists
pub mod Mesh
pub mod Escape
pub mod Markup
pub mod Page
use bigtop.Common.{ℕ, Option, none, some, List, String, get, map}
use Prim.Native.String.{◌++◌ as append}
use bigtop.Core.Ids.{JobId, TaskId, NodeId, SnapshotId}
use bigtop.Core.Error.{
  Error, not_found, invalid_job_spec, conflict, persistence, serde, Result, ok, err,
}
use bigtop.Core.Snapshots.{SnapshotRecord}
use bigtop.Core.Types.{JobSpec}
use bigtop.Core.Network.{Ipv4Addr}
use bigtop.Core.Wire.{
  RegisterNodeRequest, RegisterNodeResponse, HeartbeatRequest, SetTaskStateRequest, PushLogsRequest,
  LogLinesResponse, SubmitJobResponse, RequestSnapshotRequest, RequestSnapshotResponse,
  ReportSnapshotResult,
}
use bigtop.Server.State.{StateInner, Exec}
use bigtop.Server.State.Jobs
use bigtop.Server.State.Nodes
use bigtop.Server.State.Tasks
use bigtop.Server.State.Snapshots
use bigtop.Server.State.Logs
use bigtop.Server.State.Views.{task_snapshots}
use bigtop.Server.Shadow.Handle.{ShadowHandle, mirror_snapshot, notify_requested}

pub record AppState : Type 0 where
  pub inner : StateInner
  pub shadow : Option ShadowHandle

-- A response: a status with a body, or a status with the message of the JSON error body.
pub data Response {ℓ} (A : Type ℓ) : Type ℓ where
  success : ℕ → A → Response A
  failure : ℕ → String → Response A

-- `impl IntoResponse for ApiError`
unfoldable pub into_response {ℓ} : {A : Type ℓ} → Error → Response A
into_response (not_found message) = failure 404 message
into_response (invalid_job_spec message) = failure 400 message
into_response (conflict message) = failure 409 message
into_response (persistence message) = failure 500 message
into_response (serde message) = failure 400 message

-- `Ok((status, Json(f(value))))`, or the error as a response.
unfoldable pub respond {ℓ κ} : {A : Type ℓ} {B : Type κ} → ℕ → (A → B) → Result A → Response B
unfolding into_response
respond status f (ok value) = success status (f value)
respond status f (err e) = into_response e

-- A handler that runs an operation on the locked state and answers with what it returns.
abbrev pub handle {ℓ κ} :
    {A : Type ℓ} {B : Type κ} → ℕ → (A → B) → Exec A → AppState → Response B × AppState
handle status f operation app =
    let r = operation app.inner in (respond status f r.0, record app { inner = r.1 })

unfoldable pub submit_job :
    JobSpec → JobId → (ℕ → TaskId) → ℕ → AppState → Response SubmitJobResponse × AppState
unfolding respond Jobs.create_job
submit_job spec id fresh now =
    handle 201 (λ job_id. record { job_id = job_id }) (Jobs.create_job spec id fresh now)

unfoldable pub register_node :
    RegisterNodeRequest → NodeId → ℕ → AppState → Response RegisterNodeResponse × AppState
unfolding respond Nodes.register_node
register_node req fresh now =
    handle 201 (λ id. record { id = id })
      (Nodes.register_node fresh req.name req.addr req.total req.underlay_ip now)

-- `body.and_then(|b| b.underlay_ip)`
abbrev underlay_of : Option HeartbeatRequest → Option Ipv4Addr
underlay_of none = none
underlay_of (some body) = body.underlay_ip

-- The handlers below answer `{"ok": true}`, which is the unit here.
unfoldable pub heartbeat :
    NodeId → Option HeartbeatRequest → ℕ → AppState → Response (Unit {0}) × AppState
unfolding respond Nodes.heartbeat
heartbeat id body now = handle 200 (λ _. tt) (Nodes.heartbeat id (underlay_of body) now)

unfoldable pub set_task_state :
    TaskId → SetTaskStateRequest → AppState → Response (Unit {0}) × AppState
unfolding respond Tasks.set_task_state
set_task_state id req = handle 200 (λ _. tt) (Tasks.set_task_state id req.state req.exit_code)

unfoldable pub push_logs : TaskId → PushLogsRequest → AppState → Response (Unit {0}) × AppState
unfolding respond Logs.push_logs
push_logs id req = handle 200 (λ _. tt) (Logs.push_logs id req.lines)

unfoldable pub get_logs : TaskId → AppState → Response LogLinesResponse
unfolding into_response
get_logs id app = elim (get id app.inner.logs) [
  | none ↦ into_response (not_found (append "task " id))
  | some lines ↦ success 200 (record { lines = lines })
]

-- The calls of the audit behind a successful operation, if it is enabled.
abbrev pub shadow_hook :
    (SnapshotRecord → ShadowHandle → ShadowHandle)
    → Result SnapshotRecord
    → Option ShadowHandle
    → Option ShadowHandle
shadow_hook f (err e) shadow = shadow
shadow_hook f (ok r) none = none
shadow_hook f (ok r) (some shadow) = some (f r shadow)

unfoldable pub request_snapshot :
    TaskId
    → RequestSnapshotRequest
    → SnapshotId
    → ℕ
    → AppState
    → Response RequestSnapshotResponse × AppState
unfolding respond Snapshots.request_snapshot mirror_snapshot notify_requested
request_snapshot id req fresh now app =
    let r = Snapshots.request_snapshot fresh id req now app.inner in
    (
      respond 202 (λ s. record { snapshot_id = s.id }) r.0,
      record {
        inner = r.1;
        shadow =
            shadow_hook (λ s h. notify_requested s.id s.task_id s.node_id (mirror_snapshot s h)) r.0
              app.shadow;
      },
    )

unfoldable pub list_snapshots : TaskId → AppState → Response (List SnapshotRecord)
unfolding respond task_snapshots
list_snapshots id app = respond 200 (λ records. records) (task_snapshots app.inner id)

unfoldable pub report_snapshot_result :
    TaskId → SnapshotId → ReportSnapshotResult → AppState → Response (Unit {0}) × AppState
unfolding respond Snapshots.report_snapshot_result mirror_snapshot
report_snapshot_result id snapshot_id req app =
    let r = Snapshots.report_snapshot_result id snapshot_id req app.inner in
    (
      respond 200 (λ _. tt) r.0,
      record { inner = r.1; shadow = shadow_hook mirror_snapshot r.0 app.shadow },
    )
