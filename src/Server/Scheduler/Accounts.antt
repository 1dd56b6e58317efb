-- ===== src/Server/Scheduler/Accounts.antt =====
-- scheduler.rs: the accounting of the nodes in a round of the placement loop.
use bigtop.Common.{
  ℕ, ◌≤◌, ◌≡◌, ◌≢◌, refl, sym, ◌∙◌, subst, false, Option, none, some, List, String, get,
  get-insert_ne, insert, arith, Bool-cases, Option-cases, inl, inr,
}
use bigtop.Core.Ids.{NodeId, TaskId}
use bigtop.Core.Network.{Ipv4Addr, NetworkAssignment}
use bigtop.Core.Resources.{Resources, saturating_add}
use bigtop.Core.Types.{Task, NodeInfo, holds_resources}
use bigtop.Server.Ipam.{Ipam, allocate, gateway_for}
use bigtop.Server.State.{StateInner, journal_op}
use bigtop.Server.State.Invariant.{NodesById, NodesById-insert}
use bigtop.Server.Scheduler.{assign, commit, place_on, place_networked, place}
use bigtop.Server.Scheduler.Pick.{pick_node}
use bigtop.Server.Scheduler.Chosen.{Chosen, pick_node-Chosen}
use bigtop.Server.Scheduler.Load.{Dimension, carried}
use bigtop.Server.Scheduler.Capacity.{
  Counted, Bounded, Bounded-less, placed-Counted, placed-within, placed-same,
}

-- What a round may do to the nodes and tasks.
pub record Round (dim : Resources → ℕ) (task_id : TaskId) (s u : StateInner) : Type 0 where
  pub nodes : NodesById u.nodes
  pub counted : Counted dim u
  pub bounded : Bounded dim s u
  pub frame : (k : TaskId) → k ≢ task_id → get k u.tasks ≡ get k s.tasks

-- A round that places nothing.
skipped-Round :
    (dim : Resources → ℕ) (task_id : TaskId) (s u : StateInner)
    → u.nodes ≡ s.nodes
    → u.tasks ≡ s.tasks
    → NodesById s.nodes
    → Counted dim s
    → Round dim task_id s u
skipped-Round dim task_id s u n t v counted = record {
  nodes = subst NodesById (sym n) v;
  counted = λ id node g.
      counted id node (subst (λ m. get id m ≡ some node) n g)
      ∙ subst (λ m. carried dim id s.tasks ≡ carried dim id m) (sym t) refl;
  bounded = Bounded-less dim s u n (λ id. rw t (omega arith));
  frame = λ k ne. rw t refl;
}

-- The tables behind a placement, whether its journal entries could be written or not.
module _ (task_id : TaskId) (node_id : NodeId) (network : Option NetworkAssignment)
    (env : Option String) (task : Task) (node : NodeInfo) (s : StateInner) where
  tasks-commit :
      (ip : Option Ipv4Addr)
      → (commit task_id node_id ip network env task node s).1.tasks
        ≡ insert task_id (assign node.id network env task) s.tasks
  unfolding commit journal_op
  tasks-commit none = ground arith
  tasks-commit (some ip) = ground arith

  nodes-commit :
      (ip : Option Ipv4Addr)
      → (commit task_id node_id ip network env task node s).1.nodes
        ≡ insert node_id
            (record node { used = saturating_add node.used task.spec.resources })
            s.nodes
  unfolding commit journal_op
  nodes-commit none = ground arith
  nodes-commit (some ip) = ground arith

module _ (to_json : List (String × List String) → Option String) (dim : Resources → ℕ)
    (d : Dimension dim) (now : ℕ) (task_id : TaskId) (s : StateInner) (v : NodesById s.nodes)
    (counted : Counted dim s) where
  module _ (task : Task) (node_id : NodeId) (found : get task_id s.tasks ≡ some task)
      (idle : holds_resources task.state ≡ false) (c : Chosen s task now node_id) where
    -- A committed placement, from `s` or from `s` with the address already taken.
    commit-Round :
        (ip : Option Ipv4Addr) (network : Option NetworkAssignment) (env : Option String) (p : Ipam)
        → Round dim task_id s
            (commit task_id node_id ip network env task c.node (record s { ipam = p })).1
    commit-Round ip network env p = record {
      nodes = subst NodesById (sym nodes) (NodesById-insert node_id _ s.nodes c.own v);
      counted = λ id node g.
          subst (λ m. dim node.used ≡ carried dim id m) (sym tasks)
            (placed-Counted dim d now task_id task node_id network env s found idle c counted id
              node (subst (λ m. get id m ≡ some node) nodes g));
      bounded = record {
        same = λ id node g.
            placed-same dim d now task_id task node_id network env s found idle c id node
              (subst (λ m. get id m ≡ some node) nodes g);
        within = λ id node g w.
            subst (λ m. carried dim id m ≤ dim node.total) (sym tasks)
              (placed-within dim d now task_id task node_id network env s found idle c counted id
                node (subst (λ m. get id m ≡ some node) nodes g) w);
      };
      frame = λ k ne. rw tasks (get-insert_ne task_id k _ s.tasks ne);
    }
      where
        u : StateInner
        u = record s { ipam = p }

        nodes :
            (commit task_id node_id ip network env task c.node u).1.nodes
            ≡ insert node_id
                (record c.node { used = saturating_add c.node.used task.spec.resources })
                s.nodes
        nodes = nodes-commit task_id node_id network env task c.node u ip

        tasks :
            (commit task_id node_id ip network env task c.node u).1.tasks
            ≡ insert task_id (assign c.node.id network env task) s.tasks
        tasks = tasks-commit task_id node_id network env task c.node u ip

    place_on-Round :
        (ip : Option Ipv4Addr) (network : Option NetworkAssignment) (p : Ipam)
        → Round dim task_id s
            (place_on to_json task_id task node_id ip network (record s { ipam = p })).1
    unfolding place_on
    place_on-Round ip network p = rw (found, c.here, place_on) (commit-Round ip network _ p)

    place_networked-Round :
        (r : Option Ipv4Addr × Ipam)
        → Round dim task_id s (place_networked to_json task_id task node_id r s).1
    unfolding place_networked
    place_networked-Round (none, p) = skipped-Round dim task_id s _ refl refl v counted
    place_networked-Round (some ip, p) = elim (Option-cases (gateway_for p node_id)) [
      | inl missing ↦
          rw (missing, place_networked) (skipped-Round dim task_id s _ refl refl v counted)
      | inr (gateway, there) ↦ rw (there, place_networked) (place_on-Round (some ip) _ p)
    ]

  -- A round on a task that holds no resources.
  pub place-Round :
      ((task : Task) → get task_id s.tasks ≡ some task → holds_resources task.state ≡ false)
      → Round dim task_id s (place to_json now task_id s).1
  unfolding place
  place-Round idle = elim (Option-cases (get task_id s.tasks)) [
    | inl missing ↦ rw (missing, place) (skipped-Round dim task_id s s refl refl v counted)
    | inr (task, found) ↦ elim (Option-cases (pick_node s task now)) [
      | inl nobody ↦ rw (found, nobody, place) (skipped-Round dim task_id s s refl refl v counted)
      | inr (node_id, picked) ↦
          let c = pick_node-Chosen s task now node_id v picked in
          elim (Bool-cases task.spec.network.enabled) [
            | inl on ↦
                rw (found, picked, on, place)
                  (place_networked-Round task node_id found (idle task found) c
                    (allocate s.ipam node_id task_id))
            | inr off ↦
                rw (found, picked, off, place)
                  (place_on-Round task node_id found (idle task found) c none none s.ipam)
          ]
    ]
  ]
