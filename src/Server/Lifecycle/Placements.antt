-- ===== src/Server/Lifecycle/Placements.antt =====
-- scheduler.rs: placing tasks, and the whole pass, leaves the tasks that are over alone.
use bigtop.Common.{
  some-eq, ℕ, ◌≡◌, refl, false, none, some, Option, List, String, get, insert, arith, Bool-cases,
  inl, inr, All, All-entries, All-imp, All-map, All-filter, Option-cases,
}
use bigtop.Core.Ids.{TaskId, NodeId}
use bigtop.Core.Network.{Ipv4Addr, NetworkAssignment}
use bigtop.Core.Types.{Task, NodeInfo, is_terminal, is_pending}
use bigtop.Common.Distinct.{All-sort_by}
use bigtop.Common.Sort.{sort, le_str}
use bigtop.Core.Resources.{saturating_add}
use bigtop.Server.Ipam.{Ipam, allocate, gateway_for}
use bigtop.Server.Scheduler.Pick.{pick_node}
use bigtop.Server.State.{StateInner}
use bigtop.Server.Scheduler.{
  roll_back, place_on, place_networked, place, place_pending, pending_ids, tick, recount_used,
  requeue_dead_nodes, assign, commit, journal_ip,
}
use bigtop.Server.Lifecycle.Passes.{
  Live, Passes, Passes-refl, Passes-trans, Passes-insert, and_then-Passes, journal_op-Passes,
  for_each-Passes, waiting-Live, requeue_dead_nodes-Passes,
}
use bigtop.Server.Lifecycle.{Later, TasksById}

journal_ip-Passes :
    (node_id : NodeId) (task_id : TaskId) (ip : Option Ipv4Addr) (s : StateInner)
    → Passes s.tasks (journal_ip node_id task_id ip s).1.tasks
journal_ip-Passes node_id task_id none s = Passes-refl s.tasks
journal_ip-Passes node_id task_id (some ip) s = journal_op-Passes _ s

assign-Later :
    (node_id : NodeId) (network : Option NetworkAssignment) (env : Option String) (a : Task)
    → is_terminal a.state ≡ false
    → Later a (assign node_id network env a)
assign-Later node_id network none a l = record {
  id = refl;
  job = refl;
  name = refl;
  spec = refl;
  final = λ over. absurd (ground arith);
}
assign-Later node_id network (some env) a l = record {
  id = refl;
  job = refl;
  name = refl;
  spec = refl;
  final = λ over. absurd (ground arith);
}

commit-Passes :
    (task_id : TaskId) (node_id : NodeId) (ip : Option Ipv4Addr)
    (network : Option NetworkAssignment) (env : Option String) (task : Task) (node : NodeInfo)
    (s : StateInner)
    → get task_id s.tasks ≡ some task
    → is_terminal task.state ≡ false
    → Passes s.tasks (commit task_id node_id ip network env task node s).1.tasks
unfolding commit is_terminal is_pending
commit-Passes task_id node_id ip network env task node s g l =
    and_then-Passes s.tasks (journal_ip node_id task_id ip placed) _
      (Passes-trans s.tasks placed.tasks _
        (Passes-insert task_id task (assign node.id network env task) s.tasks g
          (assign-Later node.id network env task l) refl (λ h. absurd (ground arith)))
        (journal_ip-Passes node_id task_id ip placed))
      (λ _. journal_op-Passes _ _)
  where
    placed : StateInner
    placed = record s {
      tasks = insert task_id (assign node.id network env task) s.tasks;
      nodes =
          insert node_id (record node { used = saturating_add node.used task.spec.resources })
            s.nodes;
    }

roll_back-tasks :
    (task_id : TaskId) (ip : Option Ipv4Addr) (s : StateInner)
    → (roll_back task_id ip s).tasks ≡ s.tasks
roll_back-tasks task_id none s = refl
roll_back-tasks task_id (some ip) s = refl

pending_ids-Live :
    (s : StateInner) → TasksById s.tasks → All (λ id. Live id s.tasks) (pending_ids s)
unfolding pending_ids sort is_pending is_terminal
pending_ids-Live s v =
    All-sort_by le_str (λ id. Live id s.tasks) _
      (All-map _ (λ e. e.0) _
        (All-imp _ _ _ (λ e h a g. ground (arith, some-eq h.0 g, waiting-Live e.1.state))
          (All-filter (λ e. get e.0 s.tasks ≡ some e.1) (λ e. is_pending e.1.state) s.tasks
            (All-entries _ s.tasks v.unique λ k t g. g))))

module _ (to_json : List (String × List String) → Option String) where
  place_on-Passes :
      (task_id : TaskId) (task : Task) (node_id : NodeId) (ip : Option Ipv4Addr)
      (network : Option NetworkAssignment) (s : StateInner)
      → Live task_id s.tasks
      → Passes s.tasks (place_on to_json task_id task node_id ip network s).1.tasks
  unfolding place_on
  place_on-Passes task_id task node_id ip network s l = elim (Option-cases (get task_id s.tasks)) [
    | inl missing ↦ rw (missing, place_on, roll_back-tasks task_id ip s) (Passes-refl s.tasks)
    | inr (found, here) ↦ elim (Option-cases (get node_id s.nodes)) [
      | inl gone ↦ rw (here, gone, place_on, roll_back-tasks task_id ip s) (Passes-refl s.tasks)
      | inr (node, there) ↦
          rw (here, there, place_on)
            (commit-Passes task_id node_id ip network _ found node s here (l found here))
    ]
  ]

  place_networked-Passes :
      (task_id : TaskId) (task : Task) (node_id : NodeId) (r : Option Ipv4Addr × Ipam)
      (s : StateInner)
      → Live task_id s.tasks
      → Passes s.tasks (place_networked to_json task_id task node_id r s).1.tasks
  unfolding place_networked
  place_networked-Passes task_id task node_id (none, ipam) s l = Passes-refl s.tasks
  place_networked-Passes task_id task node_id (some ip, ipam) s l =
      elim (Option-cases (gateway_for ipam node_id)) [
        | inl missing ↦ rw (missing, place_networked) (Passes-refl s.tasks)
        | inr (gateway, found) ↦
            rw (found, place_networked)
              (place_on-Passes task_id task node_id (some ip) _ (record s { ipam = ipam }) l)
      ]

  place-Passes :
      (now : ℕ) (task_id : TaskId) (s : StateInner)
      → Live task_id s.tasks
      → Passes s.tasks (place to_json now task_id s).1.tasks
  unfolding place
  place-Passes now task_id s l = elim (Option-cases (get task_id s.tasks)) [
    | inl missing ↦ rw (missing, place) (Passes-refl s.tasks)
    | inr (task, here) ↦ elim (Option-cases (pick_node s task now)) [
      | inl nobody ↦ rw (here, nobody, place) (Passes-refl s.tasks)
      | inr (node_id, picked) ↦ elim (Bool-cases task.spec.network.enabled) [
        | inl on ↦
            rw (here, picked, on, place)
              (place_networked-Passes task_id task node_id (allocate s.ipam node_id task_id) s l)
        | inr off ↦
            rw (here, picked, off, place) (place_on-Passes task_id task node_id none none s l)
      ]
    ]
  ]

  place_pending-Passes :
      (now : ℕ) (s : StateInner)
      → TasksById s.tasks
      → Passes s.tasks (place_pending to_json now s).1.tasks
  unfolding place_pending
  place_pending-Passes now s v =
      for_each-Passes (place to_json now) (place-Passes now) (pending_ids s) s
        (pending_ids-Live s v)

  pub tick-Passes :
      (now : ℕ) (s : StateInner) → TasksById s.tasks → Passes s.tasks (tick to_json now s).1.tasks
  unfolding tick recount_used
  tick-Passes now s v =
      let first = requeue_dead_nodes-Passes now s v in
      and_then-Passes s.tasks (requeue_dead_nodes now s) _ first
        (λ _. place_pending-Passes now _ (first.moves.by_id v))
