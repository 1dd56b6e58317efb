-- ===== src/Agent/Requests.antt =====
-- crates/bigtop-agent/src/lib.rs: the agent's snapshots, requested by the server or taken on success,
-- and the claims that keep one request from being taken twice. The reports are returned in the order
-- in which they are sent; what `take_snapshot` returns is an argument.
use Prim.Native.String.{◌++◌}
use bigtop.Common.{
  Bool, true, false, none, some, List, [], ◌∷◌, String, any, ◌==◌, if◌then◌else◌, ◌≡◌, refl,
  HashMap, contains_key, insert,
}
use bigtop.Common.Decimal.{show}
use bigtop.Core.Ids.{NodeId, SnapshotId}
use bigtop.Core.Snapshots.{SnapshotState, requested, in_progress}
use bigtop.Core.Types.{Task}
use bigtop.Core.Wire.{PendingSnapshot, ReportSnapshotResult}
use bigtop.Server.State.Snapshots.{legal}
use bigtop.Agent.Shell.{
  AgentError, http, io, spawn, json, image_missing, timeout, server, network, config,
  firecracker_api,
}
use bigtop.Agent.Firecracker.Machine.{AgentResult, ok, err}

-- `impl Display for AgentError`
unfoldable pub show_error : AgentError → String
unfolding show
show_error (http message) = "http error: " ++ message
show_error (io message) = "i/o error: " ++ message
show_error (spawn message) = "spawn failed: " ++ message
show_error (json message) = "json error: " ++ message
show_error (image_missing message) = "VM image problem: " ++ message
show_error (timeout message) = "timed out: " ++ message
show_error (server message) = "server error: " ++ message
show_error (network message) = "network setup failed: " ++ message
show_error (config message) = "bad agent configuration: " ++ message
show_error (firecracker_api status message) =
    "firecracker API error " ++ show status ++ ": " ++ message

abbrev pub started : NodeId → ReportSnapshotResult
started node_id = record {
  state = in_progress;
  node_id = node_id;
  mem_file_path = none;
  snapshot_path = none;
  error = none;
}

abbrev pub failed_with : NodeId → String → ReportSnapshotResult
failed_with node_id message = record {
  state = SnapshotState.failed;
  node_id = node_id;
  mem_file_path = none;
  snapshot_path = none;
  error = some message;
}

-- The report of what `take_snapshot` returned.
unfoldable pub outcome_report : NodeId → AgentResult (String × String) → ReportSnapshotResult
unfolding show_error
outcome_report node_id (ok (mem, snap)) = record {
  state = SnapshotState.done;
  node_id = node_id;
  mem_file_path = some mem;
  snapshot_path = some snap;
  error = none;
}
outcome_report node_id (err e) = failed_with node_id (show_error e)

-- `handle_snapshot_request`: the reports that it sends, where the runtime is Firecracker or not.
unfoldable pub handle_snapshot_request :
    Bool → NodeId → AgentResult (String × String) → List ReportSnapshotResult
unfolding outcome_report
handle_snapshot_request false node_id taken =
    failed_with node_id "snapshot needs the firecracker runtime" ∷ []
handle_snapshot_request true node_id taken = started node_id ∷ outcome_report node_id taken ∷ []

-- `HashSet::insert`: whether the id is new, and the set with it.
unfoldable pub claim : SnapshotId → List SnapshotId → Bool × List SnapshotId
claim id seen = if any (λ s. s == id) seen then (false, seen) else (true, id ∷ seen)

-- `snapshot_on_success`: its reports and the claims behind it, where the guest signals its completion
-- or not, and the server answers the request with an id or an error.
unfoldable pub snapshot_on_success :
    Bool
    → AgentResult SnapshotId
    → NodeId
    → AgentResult (String × String)
    → List SnapshotId
    → List ReportSnapshotResult × List SnapshotId
unfolding claim outcome_report
snapshot_on_success false answer node_id taken seen = ([], seen)
snapshot_on_success true (err e) node_id taken seen = ([], seen)
snapshot_on_success true (ok id) node_id taken seen =
    (started node_id ∷ outcome_report node_id taken ∷ [], (claim id seen).1)

-- The loop of `poll_loop` over the requests: those that are dispatched, and the claims behind it.
unfoldable pub dispatch :
    List PendingSnapshot → List SnapshotId → List PendingSnapshot × List SnapshotId
unfolding claim
dispatch [] seen = ([], seen)
dispatch (request ∷ requests) seen =
    let c = claim request.snapshot_id seen in
    let rest = dispatch requests c.1 in if c.0 then (request ∷ rest.0, rest.1) else rest

-- The loop over the assignments: the tasks that are spawned, where `running` are those that still run.
unfoldable pub spawn_new : List Task → HashMap (Unit {0}) → List Task × HashMap (Unit {0})
spawn_new [] running = ([], running)
spawn_new (task ∷ tasks) running =
    let old = spawn_new tasks running in
    let new = spawn_new tasks (insert task.id tt running) in
    if contains_key task.id running then old else (task ∷ new.0, new.1)

-- The reports that follow a request are moves that the server's table allows.
handled_legal :
    (node_id : NodeId) (taken : AgentResult (String × String))
    → (legal requested (started node_id).state ≡ true)
      × (legal in_progress (outcome_report node_id taken).state ≡ true)
unfolding legal outcome_report
handled_legal node_id (ok paths) = (refl, refl)
handled_legal node_id (err e) = (refl, refl)
