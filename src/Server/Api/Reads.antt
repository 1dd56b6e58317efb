-- ===== src/Server/Api/Reads.antt =====
-- api.rs: the handlers that only read the state, and always succeed.
use bigtop.Common.{
  ℕ, String, Bool, not, ◌&&◌, Option, none, some, List, [], ◌∷◌, map, values, filter, length, ltb,
  eqb, leb, ◌==◌, get, if◌then◌else◌,
}
use bigtop.Common.Sort.{sort_by, le_str}
use bigtop.Core.Ids.{NodeId}
use bigtop.Core.Snapshots.{SnapshotRecord}
use bigtop.Core.Types.{Task, NodeInfo, is_assigned, is_alive}
use bigtop.Core.Wire.{JobSummary, OverlayPeer, PendingSnapshot}
use bigtop.Server.State.{StateInner, JobRecord}
use bigtop.Server.State.Snapshots.{is_requested}

-- `count()` of a job's tasks.
abbrev pub tasks_of_job : StateInner → String → ℕ
tasks_of_job s id = length (filter (λ t. t.job_id == id) (values s.tasks))

abbrev pub summary : StateInner → String × JobRecord → JobSummary
summary s entry = record {
  id = entry.0;
  name = entry.1.name;
  created_at = entry.1.created_at;
  tasks = tasks_of_job s entry.0;
}

abbrev pub le_job : JobSummary → JobSummary → Bool
le_job a b =
    if eqb a.created_at b.created_at then le_str a.id b.id else ltb a.created_at b.created_at

unfoldable pub list_jobs : StateInner → List JobSummary
unfolding sort_by
list_jobs s = sort_by le_job (map (summary s) s.jobs)

abbrev pub le_task : Task → Task → Bool
le_task a b = le_str a.id b.id

abbrev pub le_node : NodeInfo → NodeInfo → Bool
le_node a b = le_str a.id b.id

unfoldable pub list_tasks : StateInner → List Task
unfolding sort_by
list_tasks s = sort_by le_task (values s.tasks)

unfoldable pub list_nodes : StateInner → List NodeInfo
unfolding sort_by
list_nodes s = sort_by le_node (values s.nodes)

-- `id.as_ref() == Some(&node_id)`
abbrev pub is_node : Option NodeId → NodeId → Bool
is_node none node_id = Bool.false
is_node (some id) node_id = id == node_id

unfoldable pub assignments : StateInner → NodeId → List Task
unfolding sort_by is_assigned
assignments s node_id =
    sort_by le_task
      (filter (λ t. is_assigned t.state && is_node t.assigned_node node_id) (values s.tasks))

-- `filter_map` of the nodes that have an underlay address.
unfoldable pub peers_of : List NodeInfo → List OverlayPeer
peers_of [] = []
peers_of (node ∷ nodes) =
    let rest = peers_of nodes in
    elim node.underlay_ip [
      | none ↦ rest
      | some ip ↦ record { node_id = node.id; underlay_ip = ip } ∷ rest
    ]

abbrev pub le_peer : OverlayPeer → OverlayPeer → Bool
le_peer a b = le_str a.node_id b.node_id

unfoldable pub overlay_peers : StateInner → NodeId → ℕ → List OverlayPeer
unfolding sort_by peers_of is_alive
overlay_peers s node_id now =
    sort_by le_peer
      (peers_of (filter (λ node. not (node.id == node_id) && is_alive node now) (values s.nodes)))

-- state.rs: `snapshot_requests_for_node`, with its `sort_by` on the time of creation. A request's
-- record is `inner.snapshots[&id]`; without one the program panics, and here the time is zero.
abbrev created : Option SnapshotRecord → ℕ
created none = 0
created (some r) = r.created_at

abbrev pub le_request : StateInner → PendingSnapshot → PendingSnapshot → Bool
le_request s a b =
    leb (created (get a.snapshot_id s.snapshots)) (created (get b.snapshot_id s.snapshots))

abbrev pub pending_snapshot : SnapshotRecord → PendingSnapshot
pending_snapshot r = record { snapshot_id = r.id; task_id = r.task_id; spec = r.spec }

unfoldable pub snapshot_requests_for_node : StateInner → NodeId → List PendingSnapshot
unfolding sort_by is_requested
snapshot_requests_for_node s node_id = sort_by (le_request s) (
    map pending_snapshot
      (filter (λ r. is_requested r.state && (r.node_id == node_id)) (values s.snapshots)))
