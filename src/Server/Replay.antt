-- ===== src/Server/Replay.antt =====
-- crates/bigtop-server/src/journal.rs: the durable part of the state, and the replay of a journal on
-- startup.
pub mod Same
pub mod Operations
pub mod Transitions
pub mod Snapshots
pub mod Requeue
pub mod Placement
pub mod Round
pub mod Pass
pub mod Recovery
use bigtop.Common.{ℕ, Option, none, some, List, [], ◌∷◌, map, HashMap, get, insert, unwrap_or}
use mathlib.Core.List.{foldl}
use bigtop.Core.Snapshots.{SnapshotRecord}
use bigtop.Core.Types.{Task, NodeInfo}
use bigtop.Server.Ipam.{Ipam, allocate, release}
use bigtop.Server.Journal.{JournalOp}
use bigtop.Server.State.{StateInner, JobRecord}
use bigtop.Server.State.Tasks.{set_task_state}
use bigtop.Server.State.Snapshots.{report_snapshot_result}
use bigtop.Server.Scheduler.{assign, requeued, update_task, recount_used}

pub record DurableState : Type 0 where
  pub jobs : HashMap JobRecord
  pub tasks : HashMap Task
  pub nodes : HashMap NodeInfo
  pub snapshots : HashMap SnapshotRecord
  pub ipam : Ipam

-- `DurableState::capture`
unfoldable pub capture : StateInner → DurableState
capture s = record {
  jobs = s.jobs;
  tasks = s.tasks;
  nodes = s.nodes;
  snapshots = s.snapshots;
  ipam = s.ipam;
}

-- `DurableState::restore`
unfoldable pub restore : DurableState → StateInner → ℕ → StateInner
restore d s now = record s {
  jobs = d.jobs;
  tasks = d.tasks;
  snapshots = d.snapshots;
  ipam = d.ipam;
  nodes = map (λ e. (e.0, record e.1 { last_heartbeat = now })) d.nodes;
  logs = map (λ e. (e.0, [])) d.tasks;
}

-- The task loop of `CreateJob`: a log that is there is kept.
unfoldable pub replay_tasks : List Task → StateInner → StateInner
replay_tasks [] s = s
replay_tasks (task ∷ tasks) s = replay_tasks tasks (record s {
  logs = insert task.id (unwrap_or [] (get task.id s.logs)) s.logs;
  tasks = insert task.id task s.tasks;
})

-- `apply_one`. The replay asserts in debug builds only that `IpamAllocate` finds the journaled
-- address again.
unfoldable pub apply_one : ℕ → StateInner → JournalOp → StateInner
unfolding replay_tasks
apply_one now s (JournalOp.create_job job_id name created_at tasks) =
    replay_tasks tasks
      (record s { jobs = insert job_id (record { name = name; created_at = created_at }) s.jobs })
apply_one now s (JournalOp.set_task_state task_id state exit_code) =
    (set_task_state task_id state exit_code s).1
apply_one now s (JournalOp.task_assigned task_id node_id network services_env) = record s {
  tasks = update_task task_id (assign node_id network services_env) s.tasks;
}
apply_one now s (JournalOp.task_requeued task_id) = record s {
  tasks = update_task task_id requeued s.tasks;
}
apply_one now s (JournalOp.register_node node) = record s {
  nodes = insert node.id (record node { last_heartbeat = now }) s.nodes;
}
apply_one now s (JournalOp.request_snapshot r) = record s { snapshots = insert r.id r s.snapshots }
apply_one now s (JournalOp.report_snapshot task_id snapshot_id result) =
    (report_snapshot_result task_id snapshot_id result s).1
apply_one now s (JournalOp.ipam_allocate node_id task_id ip) = record s {
  ipam = (allocate s.ipam node_id task_id).1;
}
apply_one now s (JournalOp.ipam_release task_id) = record s { ipam = (release s.ipam task_id).1 }

-- The loop of `apply_ops`.
unfoldable pub apply_all : ℕ → StateInner → List JournalOp → StateInner
unfolding apply_one
apply_all now = foldl (apply_one now)

-- `apply_ops`: the journal handle is parked during the replay.
unfoldable pub apply_ops : StateInner → List JournalOp → ℕ → StateInner
unfolding apply_all
apply_ops s ops now = record (recount_used (apply_all now (record s { journal = none }) ops)) {
  journal = s.journal;
}
