-- ===== src/Server/Scheduler/Orphans.antt =====
-- scheduler.rs: what requeueing does to the tables of nodes and tasks.
use bigtop.Common.{
  subst, UniqueKeys-insert, ℕ, ◌≤◌, ◌≡◌, refl, sym, ◌∙◌, List, [], ◌∷◌, HashMap, get, values, arith,
  Option-cases, inl, inr, UniqueKeys,
}
use bigtop.Core.Ids.{NodeId, TaskId}
use bigtop.Core.Resources.{Resources}
use bigtop.Core.Types.{Task, holds_resources}
use bigtop.Server.State.{StateInner, journal_op}
use bigtop.Server.State.Invariant.{NodesById}
use bigtop.Server.State.Tasks.{release_ip}
use bigtop.Server.State.Preserves.{and_then-P, tasks-journal_op, nodes-journal_op}
use bigtop.Server.Journal.{JournalOp}
use bigtop.Server.Replay.Transitions.{tasks-release_ip, nodes-release_ip}
use bigtop.Server.Scheduler.{
  requeue, requeued, update_task, requeue_dead_nodes, dead_nodes, orphans, for_each,
}
use bigtop.Server.Scheduler.Load.{load, load-insert, share-idle}
use bigtop.Server.Scheduler.Capacity.{Bounded, Bounded-trans, Bounded-less, Bounded-refl}

-- Nodes under their ids, and tasks under one id each.
pub record Filed (s : StateInner) : Type 0 where
  pub nodes : NodesById s.nodes
  pub tasks : UniqueKeys s.tasks

-- The tables behind the requeueing of a task, whether it can be journaled or not.
requeue-tables :
    (id : TaskId) (s : StateInner)
    → ((requeue id s).1.nodes ≡ s.nodes)
      × ((requeue id s).1.tasks ≡ update_task id requeued s.tasks)
unfolding requeue
requeue-tables id s =
    and_then-P (λ u. (u.nodes ≡ s.nodes) × (u.tasks ≡ after.tasks)) (release_ip id after)
      (λ _. journal_op (JournalOp.task_requeued id))
      (nodes-release_ip id after, tasks-release_ip id after)
      (λ _. (
        nodes-journal_op _ released ∙ nodes-release_ip id after,
        tasks-journal_op _ released ∙ tasks-release_ip id after,
      ))
  where
    after : StateInner
    after = record s { tasks = update_task id requeued s.tasks }

    released : StateInner
    released = (release_ip id after).1

update_task-UniqueKeys :
    (id : TaskId) (f : Task → Task) (tasks : HashMap Task)
    → UniqueKeys tasks
    → UniqueKeys (update_task id f tasks)
update_task-UniqueKeys id f tasks u = elim (Option-cases (get id tasks)) [
  | inl missing ↦ rw (missing, update_task) u
  | inr (a, found) ↦ rw (found, update_task) (UniqueKeys-insert id (f a) tasks u)
]

requeue-Filed : (id : TaskId) (s : StateInner) → Filed s → Filed (requeue id s).1
requeue-Filed id s v =
    let (n, t) = requeue-tables id s in
    record {
      nodes = subst NodesById (sym n) v.nodes;
      tasks = subst UniqueKeys (sym t) (update_task-UniqueKeys id requeued s.tasks v.tasks);
    }

module _ (dim : Resources → ℕ) where
  requeued-load :
      (id : TaskId) (tasks : HashMap Task) (node : NodeId)
      → load dim node (values (update_task id requeued tasks)) ≤ load dim node (values tasks)
  unfolding holds_resources
  requeued-load id tasks node = elim (Option-cases (get id tasks)) [
    | inl missing ↦ rw (missing, update_task) (omega arith)
    | inr (a, found) ↦
        let sum = load-insert dim node id a (requeued a) tasks found in
        let freed = share-idle dim node (requeued a) refl in rw (found, update_task) (omega arith)
  ]

  -- A task that is requeued takes nothing any more.
  requeue-Bounded : (id : TaskId) (s : StateInner) → Bounded dim s (requeue id s).1
  requeue-Bounded id s =
      let (n, t) = requeue-tables id s in
      Bounded-less dim s (requeue id s).1 n (λ node. rw t (requeued-load id s.tasks node))

  requeue_each-Bounded :
      (ids : List TaskId) (s : StateInner)
      → Filed s
      → Filed (for_each requeue ids s).1 × Bounded dim s (for_each requeue ids s).1
  requeue_each-Bounded [] s v = (v, Bounded-refl dim s)
  requeue_each-Bounded (id ∷ ids) s v =
      and_then-P (λ u. Filed u × Bounded dim s u) (requeue id s) (λ _. for_each requeue ids)
        (requeue-Filed id s v, requeue-Bounded id s)
        (λ _.
          let (w, b) = requeue_each-Bounded ids (requeue id s).1 (requeue-Filed id s v) in
          (w, Bounded-trans dim s (requeue id s).1 _ (requeue-Bounded id s) b))

  pub requeue_dead_nodes-Bounded :
      (now : ℕ) (s : StateInner)
      → Filed s
      → Filed (requeue_dead_nodes now s).1 × Bounded dim s (requeue_dead_nodes now s).1
  unfolding requeue_dead_nodes
  requeue_dead_nodes-Bounded now s v = go (dead_nodes now s) refl
    where
      go :
          (dead : List NodeId)
          → dead_nodes now s ≡ dead
          → Filed (requeue_dead_nodes now s).1 × Bounded dim s (requeue_dead_nodes now s).1
      go [] e = rw (e, requeue_dead_nodes) (v, Bounded-refl dim s)
      go (node ∷ dead) e =
          rw (e, requeue_dead_nodes) (requeue_each-Bounded (orphans (node ∷ dead) s) s v)
