-- ===== src/Server/Replay/Placement.antt =====
-- A placement has journaled the address and the assignment.
use bigtop.Common.{
  subst, ℕ, ◌≡◌, refl, sym, ap, ◌∙◌, Option, none, some, HashMap, get, insert, arith, String,
}
use bigtop.Core.Ids.{TaskId, NodeId}
use bigtop.Core.Error.{Result, ok, err}
use bigtop.Core.Network.{Ipv4Addr, NetworkAssignment}
use bigtop.Core.Resources.{saturating_add}
use bigtop.Core.Types.{Task, NodeInfo}
use bigtop.Server.Ipam.{Ipam, allocate}
use bigtop.Server.Journal.{JournalOp}
use bigtop.Server.State.{StateInner, and_then, journal_op}
use bigtop.Server.Scheduler.{assign, update_task, commit}
use bigtop.Server.Replay.{apply_one}
use bigtop.Server.State.Preserves.{tasks-journal_op, nodes-journal_op}
use bigtop.Server.Replay.Same.{
  stable_nodes, stable_nodes-insert, Journaled, Extends, Extends-trans, Extends-step,
  Extends-silent,
}

-- Journaling does not look at tasks and nodes.
journal_op-placed :
    (op : JournalOp) (s : StateInner) (tasks : HashMap Task) (nodes : HashMap NodeInfo)
    → journal_op op (record s { tasks = tasks; nodes = nodes })
      ≡ ((journal_op op s).0, record (journal_op op s).1 { tasks = tasks; nodes = nodes })
unfolding journal_op
journal_op-placed op s tasks nodes = ground arith

-- `s₀` is the state before the address was allocated, `p` the allocator behind it.
module _ (now : ℕ) (s₀ : StateInner) (p : Ipam) (task_id : TaskId) (node_id : NodeId)
    (network : Option NetworkAssignment) (env : Option String) (task : Task) (node : NodeInfo)
    (found : get task_id s₀.tasks ≡ some task) (here : get node_id s₀.nodes ≡ some node)
    (own : node.id ≡ node_id) (j : Journaled s₀) where
  abbrev s : StateInner
  s = record s₀ { ipam = p }

  abbrev op : JournalOp
  op = JournalOp.task_assigned task_id node_id network env

  abbrev new_tasks : HashMap Task
  new_tasks = insert task_id (assign node.id network env task) s₀.tasks

  abbrev new_nodes : HashMap NodeInfo
  new_nodes =
      insert node_id (record node { used = saturating_add node.used task.spec.resources }) s₀.nodes

  replayed_tasks :
      (tasks : HashMap Task)
      → tasks ≡ s₀.tasks
      → update_task task_id (assign node_id network env) tasks ≡ new_tasks
  replayed_tasks tasks e =
      ap (update_task task_id (assign node_id network env)) e ∙ rw (found, update_task, own)

  assigned-Extends :
      (u : StateInner)
      → Extends now s₀ u
      → u.tasks ≡ s₀.tasks
      → u.nodes ≡ s₀.nodes
      → (journal_op op (record u { tasks = new_tasks; nodes = new_nodes })).0 ≡ ok tt
      → Extends now s₀ (journal_op op (record u { tasks = new_tasks; nodes = new_nodes })).1
  unfolding apply_one
  assigned-Extends u first kept_tasks kept_nodes h = Extends-trans now s₀ u _ first (
      Extends-step now op u _ first.attached refl h λ t same. record {
        jobs = same.jobs;
        tasks = replayed_tasks t.tasks (same.tasks ∙ kept_tasks);
        snapshots = same.snapshots;
        ipam = same.ipam;
        nodes =
            same.nodes
            ∙ ap stable_nodes kept_nodes
            ∙ sym (stable_nodes-insert node_id node _ s₀.nodes here refl);
        parked = same.parked;
      })

  pub commit_plain-Extends :
      p ≡ s₀.ipam
      → (commit task_id node_id none network env task node s).0 ≡ ok tt
      → Extends now s₀ (commit task_id node_id none network env task node s).1
  unfolding commit
  commit_plain-Extends e h = assigned-Extends s unchanged refl refl h
    where
      unchanged : Extends now s₀ s
      unchanged = Extends-silent now s₀ s j refl λ t same. record {
        jobs = same.jobs;
        tasks = same.tasks;
        snapshots = same.snapshots;
        ipam = same.ipam ∙ sym e;
        nodes = same.nodes;
        parked = same.parked;
      }

  -- The journal entry of the address, and what follows it.
  networked-tail :
      (ip : Ipv4Addr) (r : Result (Unit {0}) × StateInner)
      → p ≡ (allocate s₀.ipam node_id task_id).1
      → journal_op (JournalOp.ipam_allocate node_id task_id ip) s ≡ r
      → (and_then (r.0, record r.1 { tasks = new_tasks; nodes = new_nodes }) (λ _. journal_op op)).0
        ≡ ok tt
      → Extends now s₀
          (and_then
            (r.0, record r.1 { tasks = new_tasks; nodes = new_nodes })
            (λ _. journal_op op)).1
  unfolding apply_one
  networked-tail ip (err x, u) e ran h = absurd (ground arith)
  networked-tail ip (ok a, u) e ran h =
      let entry : JournalOp = JournalOp.ipam_allocate node_id task_id ip in
      let first : Extends now s₀ u =
        subst (λ q. Extends now s₀ q.1) ran
          (Extends-step now entry s₀ s j refl (ap (λ (q : Result (Unit {0}) × StateInner). q.0) ran)
            λ t same. record {
              jobs = same.jobs;
              tasks = same.tasks;
              snapshots = same.snapshots;
              ipam = ap (λ q. (allocate q node_id task_id).1) same.ipam ∙ sym e;
              nodes = same.nodes;
              parked = same.parked;
            }) in
      assigned-Extends u first (subst (λ q. q.1.tasks ≡ s₀.tasks) ran (tasks-journal_op entry s))
        (subst (λ q. q.1.nodes ≡ s₀.nodes) ran (nodes-journal_op entry s)) h

  pub commit_networked-Extends :
      (ip : Ipv4Addr)
      → p ≡ (allocate s₀.ipam node_id task_id).1
      → (commit task_id node_id (some ip) network env task node s).0 ≡ ok tt
      → Extends now s₀ (commit task_id node_id (some ip) network env task node s).1
  unfolding commit
  commit_networked-Extends ip e h =
      let entry : JournalOp = JournalOp.ipam_allocate node_id task_id ip in
      rw (journal_op-placed entry s new_tasks new_nodes) (
        networked-tail ip (journal_op entry s) e refl
          (rw (journal_op-placed entry s new_tasks new_nodes, commit) at h))
