-- ===== src/Server/Lifecycle/Steady.antt =====
-- state.rs and scheduler.rs: one change of the tables, where no node is overcommitted.
use bigtop.Common.{
  ℕ, ◌≤◌, ◌≡◌, refl, ◌∙◌, subst, false, none, some, HashMap, get, get-insert_inv, insert, values,
  arith, inl, inr,
}
use bigtop.Core.Ids.{TaskId, NodeId}
use bigtop.Core.Resources.{Resources, Within}
use bigtop.Core.Types.{Task, NodeInfo, holds_resources}
use bigtop.Server.Ipam.{Ipam}
use bigtop.Server.State.Invariant.{NodesById, NodesById-insert}
use bigtop.Server.Scheduler.Load.{share, load, load-insert, load-insert_le, share-idle}
use bigtop.Server.Scheduler.Overcommit.{taken, Room}
use bigtop.Server.Lifecycle.{TasksById, TasksById-insert}
use bigtop.Server.Lifecycle.Passes.{Waits, AllWait, AllWait-insert}

-- Nodes and tasks under their ids, waiting tasks on no node, and no node overcommitted.
pub record Steady (nodes : HashMap NodeInfo) (tasks : HashMap Task) : Type 0 where
  pub nodes_by_id : NodesById nodes
  pub tasks_by_id : TasksById tasks
  pub waits : AllWait tasks
  pub room : Room nodes tasks

-- As a property for the frames of the operations.
abbrev pub SteadyAt : HashMap NodeInfo → HashMap Task → Ipam → Type 0
SteadyAt nodes tasks ipam = Steady nodes tasks

-- A task takes no more of any node than another one.
abbrev pub Lighter : Task → Task → Type 0
Lighter b a = (dim : Resources → ℕ) (id : NodeId) → share dim id b ≤ share dim id a

module _ (nodes : HashMap NodeInfo) (tasks : HashMap Task) (v : Steady nodes tasks) where
  -- No task's load grew.
  less_load :
      (now : HashMap Task)
      → ((dim : Resources → ℕ) (id : NodeId)
          → load dim id (values now) ≤ load dim id (values tasks))
      → Room nodes now
  less_load now less id node g =
      let cpu = less (λ r. r.cpu_millis) id in
      let mem = less (λ r. r.mem_mb) id in
      let before = v.room id node g in
      let cpu_before = before.cpu in
      let mem_before = before.mem in record { cpu = omega arith; mem = omega arith }

  pub Steady-node :
      (id : NodeId) (node : NodeInfo)
      → node.id ≡ id
      → Within (taken id tasks) node.total
      → Steady (insert id node nodes) tasks
  Steady-node id node own room = record {
    nodes_by_id = NodesById-insert id node nodes own v.nodes_by_id;
    tasks_by_id = v.tasks_by_id;
    waits = v.waits;
    room = λ k n g. elim (get-insert_inv id k node n nodes g) [
      | inl e ↦
          subst (λ m. Within (taken k tasks) m.total) e.1
            (subst (λ i. Within (taken i tasks) node.total) e.0 room)
      | inr old ↦ v.room k n old
    ];
  }

  pub Steady-task :
      (id : TaskId) (a b : Task)
      → get id tasks ≡ some a
      → b.id ≡ a.id
      → Waits b
      → Lighter b a
      → Steady nodes (insert id b tasks)
  Steady-task id a b found own w light = record {
    nodes_by_id = v.nodes_by_id;
    tasks_by_id = TasksById-insert id b tasks (own ∙ v.tasks_by_id.filed id a found) v.tasks_by_id;
    waits = AllWait-insert id b tasks w v.waits;
    room = less_load (insert id b tasks) λ dim node.
        let sum = load-insert dim node id a b tasks found in
        let lighter = light dim node in omega arith;
  }

  pub Steady-new :
      (b : Task)
      → holds_resources b.state ≡ false
      → b.assigned_node ≡ none
      → Steady nodes (insert b.id b tasks)
  Steady-new b idle nowhere = record {
    nodes_by_id = v.nodes_by_id;
    tasks_by_id = TasksById-insert b.id b tasks refl v.tasks_by_id;
    waits = AllWait-insert b.id b tasks (λ _. nowhere) v.waits;
    room = less_load (insert b.id b tasks) λ dim node.
        let sum = load-insert_le dim node b.id b tasks in
        let nothing = share-idle dim node b idle in omega arith;
  }
