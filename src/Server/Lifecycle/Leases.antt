-- ===== src/Server/Lifecycle/Leases.antt =====
-- scheduler.rs: every address stays with a task that is assigned or runs, in the scheduling pass.
use bigtop.Common.{
  ℕ, ◌≡◌, refl, sym, subst, none, some, Option, List, [], ◌∷◌, String, get, remove, arith,
  Bool-cases, Option-cases, inl, inr,
}
use bigtop.Core.Ids.{TaskId, NodeId}
use bigtop.Core.Network.{Ipv4Addr, NetworkAssignment}
use bigtop.Core.Types.{Task, NodeInfo, holds_resources}
use bigtop.Server.Ipam.{Ipam, allocate, gateway_for, release}
use bigtop.Server.Journal.{JournalOp}
use bigtop.Server.State.{StateInner, Exec, journal_op}
use bigtop.Server.State.Tasks.{release_ip}
use bigtop.Server.State.Preserves.{and_then-P, tasks-journal_op}
use bigtop.Server.Replay.Transitions.{tasks-release_ip, release_ip-ipam}
use bigtop.Server.Scheduler.{
  for_each, requeue, requeued, update_task, requeue_dead_nodes, dead_nodes, orphans, recount_used,
  roll_back, commit, assign, journal_ip, place_on, place_networked, place, place_pending,
  pending_ids, tick,
}
use bigtop.Server.Scheduler.Pick.{pick_node}
use bigtop.Server.Lifecycle.Owners.{
  Leased, Owned, OwnedBut, OwnedBut-insert, OwnedBut-lease, Owned-remove, Owned-insert, granted,
  allocated-allocate,
}

pub ipam-journal_op : (op : JournalOp) (s : StateInner) → (journal_op op s).1.ipam ≡ s.ipam
unfolding journal_op
ipam-journal_op op s = ground arith

journal_op-Leased : (op : JournalOp) (s : StateInner) → Leased s → Leased (journal_op op s).1
journal_op-Leased op s o = rw (tasks-journal_op op s, ipam-journal_op op s) o

-- Whatever became of the task, once its address is released.
pub release_ip-Leased :
    (id : TaskId) (s : StateInner)
    → OwnedBut id s.tasks s.ipam.allocated
    → Leased (release_ip id s).1
unfolding release
release_ip-Leased id s o =
    rw (tasks-release_ip id s, release_ip-ipam id s) (Owned-remove id s.tasks s.ipam.allocated o)

requeue-Leased : (id : TaskId) (s : StateInner) → Leased s → Leased (requeue id s).1
unfolding requeue
requeue-Leased id s o =
    and_then-P Leased (release_ip id after) (λ _. journal_op (JournalOp.task_requeued id)) freed
      (λ _. journal_op-Leased _ _ freed)
  where
    after : StateInner
    after = record s { tasks = update_task id requeued s.tasks }

    others : OwnedBut id (update_task id requeued s.tasks) s.ipam.allocated
    others = elim (Option-cases (get id s.tasks)) [
      | inl missing ↦ rw (missing, update_task) (λ k ip ne g. o k ip g)
      | inr (a, found) ↦
          rw (found, update_task)
            (OwnedBut-insert id (requeued a) s.tasks s.ipam.allocated (λ k ip ne g. o k ip g))
    ]

    freed : Leased (release_ip id after).1
    freed = release_ip-Leased id after others

for_each-Leased :
    (body : TaskId → Exec (Unit {0}))
    → ((id : TaskId) (s : StateInner) → Leased s → Leased (body id s).1)
    → (ids : List TaskId) (s : StateInner) → Leased s
    → Leased (for_each body ids s).1
for_each-Leased body keep [] s o = o
for_each-Leased body keep (id ∷ ids) s o =
    and_then-P Leased (body id s) (λ _. for_each body ids) (keep id s o)
      (λ _. for_each-Leased body keep ids (body id s).1 (keep id s o))

requeue_dead_nodes-Leased :
    (now : ℕ) (s : StateInner) → Leased s → Leased (requeue_dead_nodes now s).1
unfolding requeue_dead_nodes
requeue_dead_nodes-Leased now s o = go (dead_nodes now s) refl
  where
    go : (dead : List NodeId) → dead_nodes now s ≡ dead → Leased (requeue_dead_nodes now s).1
    go [] e = rw (e, requeue_dead_nodes) o
    go (node ∷ dead) e =
        rw (e, requeue_dead_nodes)
          (for_each-Leased requeue requeue-Leased (orphans (node ∷ dead) s) s o)

journal_ip-Leased :
    (node_id : NodeId) (task_id : TaskId) (ip : Option Ipv4Addr) (s : StateInner)
    → Leased s
    → Leased (journal_ip node_id task_id ip s).1
journal_ip-Leased node_id task_id none s o = o
journal_ip-Leased node_id task_id (some ip) s o = journal_op-Leased _ s o

commit-Leased :
    (task_id : TaskId) (node_id : NodeId) (ip : Option Ipv4Addr)
    (network : Option NetworkAssignment) (env : Option String) (task : Task) (node : NodeInfo)
    (s : StateInner)
    → OwnedBut task_id s.tasks s.ipam.allocated
    → Leased (commit task_id node_id ip network env task node s).1
unfolding commit holds_resources
commit-Leased task_id node_id ip network env task node s o =
    let first =
      journal_ip-Leased node_id task_id ip _
        (Owned-insert task_id (assign node.id network env task) s.tasks s.ipam.allocated refl o) in
    and_then-P Leased (journal_ip node_id task_id ip _) _ first (λ _. journal_op-Leased _ _ first)

module _ (to_json : List (String × List String) → Option String) where
  -- A placement, once its address is leased, or given back.
  place_on-Leased :
      (task_id : TaskId) (task : Task) (node_id : NodeId) (ip : Option Ipv4Addr)
      (network : Option NetworkAssignment) (s : StateInner)
      → Leased (roll_back task_id ip s)
      → OwnedBut task_id s.tasks s.ipam.allocated
      → Leased (place_on to_json task_id task node_id ip network s).1
  unfolding place_on
  place_on-Leased task_id task node_id ip network s back o =
      elim (Option-cases (get task_id s.tasks)) [
        | inl missing ↦ rw (missing, place_on) back
        | inr (found, here) ↦ elim (Option-cases (get node_id s.nodes)) [
          | inl gone ↦ rw (here, gone, place_on) back
          | inr (node, there) ↦
              rw (here, there, place_on) (commit-Leased task_id node_id ip network _ found node s o)
        ]
      ]

  place_networked-Leased :
      (task_id : TaskId) (task : Task) (node_id : NodeId) (s : StateInner)
      (r : Option Ipv4Addr × Ipam)
      → r.1.allocated ≡ granted r.0 task_id s.ipam.allocated
      → Leased s
      → Leased (place_networked to_json task_id task node_id r s).1
  unfolding place_networked release
  place_networked-Leased task_id task node_id s (none, p) e o = subst (Owned s.tasks) (sym e) o
  place_networked-Leased task_id task node_id s (some ip, p) e o =
      elim (Option-cases (gateway_for p node_id)) [
        | inl missing ↦ rw (missing, place_networked) back
        | inr (gateway, found) ↦
            rw (found, place_networked)
              (place_on-Leased task_id task node_id (some ip) _ (record s { ipam = p }) back others)
      ]
    where
      others : OwnedBut task_id s.tasks p.allocated
      others =
          subst (OwnedBut task_id s.tasks) (sym e)
            (OwnedBut-lease task_id ip s.tasks s.ipam.allocated (λ k ip ne g. o k ip g))

      back : Owned s.tasks (remove task_id p.allocated)
      back = Owned-remove task_id s.tasks p.allocated others

  place-Leased :
      (now : ℕ) (task_id : TaskId) (s : StateInner)
      → Leased s
      → Leased (place to_json now task_id s).1
  unfolding place
  place-Leased now task_id s o = elim (Option-cases (get task_id s.tasks)) [
    | inl missing ↦ rw (missing, place) o
    | inr (task, here) ↦ elim (Option-cases (pick_node s task now)) [
      | inl nobody ↦ rw (here, nobody, place) o
      | inr (node_id, picked) ↦ elim (Bool-cases task.spec.network.enabled) [
        | inl on ↦
            rw (here, picked, on, place)
              (place_networked-Leased task_id task node_id s (allocate s.ipam node_id task_id)
                (allocated-allocate s.ipam node_id task_id) o)
        | inr off ↦
            rw (here, picked, off, place)
              (place_on-Leased task_id task node_id none none s o (λ k ip ne g. o k ip g))
      ]
    ]
  ]

  place_pending-Leased :
      (now : ℕ) (s : StateInner) → Leased s → Leased (place_pending to_json now s).1
  unfolding place_pending
  place_pending-Leased now s o =
      for_each-Leased (place to_json now) (place-Leased now) (pending_ids s) s o

  -- Where every address belongs to a task that is assigned or runs, that is so behind a pass.
  pub tick-Leased : (now : ℕ) (s : StateInner) → Leased s → Leased (tick to_json now s).1
  unfolding tick recount_used
  tick-Leased now s o =
      let first = requeue_dead_nodes-Leased now s o in
      and_then-P Leased (requeue_dead_nodes now s)
        (λ _ t. place_pending to_json now (recount_used t)) first
        (λ _. place_pending-Leased now (recount_used (requeue_dead_nodes now s).1) first)
