-- ===== src/Server/Scheduler/Keeps.antt =====
-- The scheduling pass keeps the invariant, whether it succeeds or a journal failure cuts it short.
use bigtop.Common.{
  UniqueKeys, UniqueKeys-insert, UniqueKeys-map_values, get-map_values_inv, ◌≡◌, ◌≢◌, subst, true,
  Option, none, some, List, [], ◌∷◌, HashMap, get, insert, arith, Option-cases, inl, inr, String,
  get-insert, eq_iff, values,
}
use mathlib.Core.List.{foldl}
use bigtop.Core.Ids.{TaskId, NodeId}
use bigtop.Core.Network.{Ipv4Addr, NetworkAssignment}
use bigtop.Core.Resources.{Resources, saturating_add}
use bigtop.Core.Types.{Task, NodeInfo, is_pending}
use bigtop.Server.Ipam.Valid.{Valid}
use bigtop.Server.State.{StateInner}
use bigtop.Server.State.Tasks.{release_ip}
use bigtop.Server.State.Invariant.{
  Inv, NodesById, NodesById-insert, PendingFree-insert_free, get-release,
}
use bigtop.Server.State.Preserves.{Keeps, and_then-Inv, journal_op-Keeps, release_ip-Keeps}
use bigtop.Server.Replay.Transitions.{release_ip-tasks, tasks-release_ip, release_ip-ipam}
use bigtop.Server.Scheduler.{
  requeue, requeued, update_task, recount_used, set_used, reset_used, hold, assign, commit,
  journal_ip,
}

-- ---------------------------------------------------------------- requeue

-- Filing a task as pending, once its address is released.
requeued-Inv :
    (id : TaskId) (u : StateInner)
    → Inv u
    → get id u.ipam.allocated ≡ none
    → Inv (record u { tasks = update_task id requeued u.tasks })
requeued-Inv id u v unheld = elim (Option-cases (get id u.tasks)) [
  | inl missing ↦ rw (missing, update_task) v
  | inr (task, found) ↦
      rw (found, update_task)
        (record {
          nodes = v.nodes;
          ipam = v.ipam;
          tasks = UniqueKeys-insert id (requeued task) u.tasks v.tasks;
          waiting = PendingFree-insert_free id (requeued task) u.tasks u.ipam unheld v.waiting;
        })
]

-- Requeueing a task keeps the invariant of the server's state, whatever its result; in particular
-- the task that is pending again holds no address.
pub requeue-Inv : (id : TaskId) → (s : StateInner) → Inv s → Inv (requeue id s).1
unfolding requeue
requeue-Inv id s v =
    rw (release_ip-tasks id s (update_task id requeued s.tasks))
      (and_then-Inv ((release_ip id s).0, after) _ after-Inv λ a. journal_op-Keeps _)
  where
    after : StateInner
    after = record (release_ip id s).1 { tasks = update_task id requeued s.tasks }

    after-Inv : Inv after
    after-Inv =
        subst (λ tasks. Inv (record (release_ip id s).1 { tasks = update_task id requeued tasks }))
          (tasks-release_ip id s)
          (requeued-Inv id (release_ip id s).1 (release_ip-Keeps id s v)
            (rw (release_ip-ipam id s) (get-release s.ipam id)))

-- ---------------------------------------------------------------- accounting

set_used-ById :
    (nodes : HashMap NodeInfo) (e : NodeId × Resources)
    → NodesById nodes
    → NodesById (set_used nodes e)
unfolding set_used
set_used-ById nodes (node_id, used) v = elim (Option-cases (get node_id nodes)) [
  | inl missing ↦ rw (missing, set_used) v
  | inr (node, found) ↦
      rw (found, set_used) (NodesById-insert node_id _ nodes (v.filed node_id node found) v)
]

set_all-ById :
    (held : List (NodeId × Resources)) (nodes : HashMap NodeInfo)
    → NodesById nodes
    → NodesById (foldl set_used nodes held)
set_all-ById [] nodes v = v
set_all-ById (e ∷ held) nodes v = set_all-ById held (set_used nodes e) (set_used-ById nodes e v)

reset_used-ById : (nodes : HashMap NodeInfo) → NodesById nodes → NodesById (reset_used nodes)
reset_used-ById nodes v = record {
  unique = UniqueKeys-map_values _ nodes v.unique;
  filed = λ k node g.
      let (old, found, e) = get-map_values_inv _ k nodes node g in
      ground (arith, v.filed k old found);
}

pub recount_used-ById : (s : StateInner) → NodesById s.nodes → NodesById (recount_used s).nodes
unfolding recount_used
recount_used-ById s v = set_all-ById (foldl hold [] (values s.tasks)) _ (reset_used-ById s.nodes v)

pub recount_used-Inv : (s : StateInner) → Inv s → Inv (recount_used s)
unfolding recount_used
recount_used-Inv s v = record {
  nodes = recount_used-ById s v.nodes;
  ipam = v.ipam;
  tasks = v.tasks;
  waiting = v.waiting;
}

-- ---------------------------------------------------------------- placement

-- The state of a placement before it is committed: the task may hold an address already.
pub record Placing (task_id : TaskId) (s : StateInner) : Type 0 where
  pub nodes : NodesById s.nodes
  pub ipam : Valid s.ipam
  pub tasks : UniqueKeys s.tasks
  pub waiting :
      (k : TaskId) (task : Task)
      → k ≢ task_id
      → get k s.tasks ≡ some task
      → is_pending task.state ≡ true
      → get k s.ipam.allocated ≡ none

journal_ip-Keeps :
    (node_id : NodeId) (task_id : TaskId) (ip : Option Ipv4Addr)
    → Keeps (journal_ip node_id task_id ip)
journal_ip-Keeps node_id task_id none s v = v
journal_ip-Keeps node_id task_id (some ip) s v = journal_op-Keeps _ s v

pub commit-Inv :
    (task_id : TaskId) (node_id : NodeId) (ip : Option Ipv4Addr)
    (network : Option NetworkAssignment) (env : Option String) (task : Task) (node : NodeInfo)
    (s : StateInner)
    → Placing task_id s
    → get node_id s.nodes ≡ some node
    → Inv (commit task_id node_id ip network env task node s).1
unfolding commit is_pending
commit-Inv task_id node_id ip network env task node s p here =
    and_then-Inv (journal_ip node_id task_id ip placed) _
      (journal_ip-Keeps node_id task_id ip placed placed-Inv) λ a. journal_op-Keeps _
  where
    placed : StateInner
    placed = record s {
      tasks = insert task_id (assign node.id network env task) s.tasks;
      nodes =
          insert node_id (record node { used = saturating_add node.used task.spec.resources })
            s.nodes;
    }

    placed-Inv : Inv placed
    placed-Inv = record {
      nodes = NodesById-insert node_id _ s.nodes (p.nodes.filed node_id node here) p.nodes;
      ipam = p.ipam;
      tasks = UniqueKeys-insert task_id _ s.tasks p.tasks;
      waiting = λ k other g w. ground (
        arith,
        get-insert task_id k (assign node.id network env task) s.tasks,
        eq_iff task_id k,
        p.waiting k other,
      );
    }
