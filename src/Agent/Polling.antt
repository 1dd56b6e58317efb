-- ===== src/Agent/Polling.antt =====
-- crates/bigtop-agent/src/lib.rs: the poll loop. What the server answers, and which of the tasks have
-- ended by then, are arguments of a round.
pub mod Rounds
pub mod Polled
use Prim.Native.String.{◌++◌}
use mathlib.Core.List.{foldl}
use bigtop.Common.{
  ℕ, ◌+◌, Bool, true, false, not, ◌&&◌, Option, none, some, List, [], ◌∷◌, String, HashMap, insert,
  filter, leb, eqb, ◌==◌, if◌then◌else◌,
}
use bigtop.Common.Int.{ℤ}
use bigtop.Core.Ids.{TaskId, NodeId, SnapshotId}
use bigtop.Core.Network.{Ipv4Addr}
use bigtop.Core.Resources.{Resources}
use bigtop.Core.Snapshots.{SnapshotSpec}
use bigtop.Core.Types.{Task, TaskState}
use bigtop.Core.Wire.{RegisterNodeRequest, PendingSnapshot, RequestSnapshotRequest}
use bigtop.Agent.Shell.{AgentError, server, config, Shell}
use bigtop.Agent.Firecracker.{FirecrackerConfig}
use bigtop.Agent.Firecracker.Boot.{FirecrackerRuntime}
use bigtop.Agent.Firecracker.Machine.{AgentResult, ok, err}
use bigtop.Agent.Overlay
use bigtop.Agent.Overlay.{OverlayManager}
use bigtop.Agent.Requests.{spawn_new, dispatch}

-- What the loop keeps: the tasks whose handles it holds, and the snapshot requests that were claimed.
pub record Polling : Type 0 where
  pub running : HashMap (Unit {0})
  pub seen : List SnapshotId

-- One round: the handles that have finished, and what the two requests return.
pub record Round : Type 0 where
  pub finished : TaskId → Bool
  pub assignments : AgentResult (List Task)
  pub requests : AgentResult (List PendingSnapshot)

-- `running.retain(|_, handle| !handle.is_finished())`
unfoldable pub retain : (TaskId → Bool) → HashMap (Unit {0}) → HashMap (Unit {0})
retain finished running = filter (λ e. not (finished e.0)) running

unfoldable pub spawned :
    AgentResult (List Task) → HashMap (Unit {0}) → List Task × HashMap (Unit {0})
unfolding spawn_new
spawned (ok tasks) running = spawn_new tasks running
spawned (err e) running = ([], running)

unfoldable pub dispatched :
    AgentResult (List PendingSnapshot) → List SnapshotId → List PendingSnapshot × List SnapshotId
unfolding dispatch
dispatched (ok requests) seen = dispatch requests seen
dispatched (err e) seen = ([], seen)

-- The tasks and the requests that a round starts, and the loop's state behind it.
unfoldable pub poll : Round → Polling → List Task × List PendingSnapshot × Polling
unfolding retain spawned dispatched
poll round p =
    let (tasks, running) = spawned round.assignments (retain round.finished p.running) in
    let (requests, seen) = dispatched round.requests p.seen in
    (tasks, requests, record { running = running; seen = seen })

-- What a run of rounds starts, round by round.
unfoldable pub poll_loop : List Round → Polling → List (List Task × List PendingSnapshot)
unfolding poll
poll_loop [] p = []
poll_loop (round ∷ rounds) p =
    let (tasks, requests, after) = poll round p in (tasks, requests) ∷ poll_loop rounds after
