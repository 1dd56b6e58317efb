-- ===== src/Server/Scheduler/Overcommit.antt =====
-- scheduler.rs: a pass accounts for every task and overcommits no node.
use bigtop.Common.{subst, sym, ◌≤◌, ℕ, ◌≡◌, List, Option, String, HashMap, get, some, arith}
use bigtop.Core.Ids.{NodeId}
use bigtop.Core.Error.{Result, ok, err}
use bigtop.Core.Resources.{Resources, Within}
use bigtop.Core.Types.{Task, NodeInfo}
use bigtop.Server.State.{StateInner, Exec, and_then}
use bigtop.Server.State.Invariant.{NodesById}
use bigtop.Server.Scheduler.Orphans.{Filed, requeue_dead_nodes-Bounded}
use bigtop.Server.State.Preserves.{and_then-P}
use bigtop.Server.Scheduler.{tick, requeue_dead_nodes, place_pending, recount_used}
use bigtop.Server.Scheduler.Load.{Dimension, carried, cpu_millis-Dimension, mem_mb-Dimension}
use bigtop.Server.Scheduler.Capacity.{Counted, Bounded, Bounded-trans}
use bigtop.Server.Scheduler.Budget.{placed-Going}

-- What the tasks that are assigned to a node or run on it take: the sums, cut off at the largest `u64`.
abbrev pub taken : NodeId → HashMap Task → Resources
taken id tasks = record {
  cpu_millis = carried (λ r. r.cpu_millis) id tasks;
  mem_mb = carried (λ r. r.mem_mb) id tasks;
}

-- No node is overcommitted.
abbrev pub Room : HashMap NodeInfo → HashMap Task → Type 0
Room nodes tasks =
    (id : NodeId) (node : NodeInfo) → get id nodes ≡ some node → Within (taken id tasks) node.total

-- What succeeds as a whole has run its second part.
and_then-ok {ℓ κ μ} :
    (P : StateInner → Type μ) {A : Type ℓ} {B : Type κ} (r : Result A × StateInner) (f : A → Exec B)
    (b : B)
    → (and_then r f).0 ≡ ok b
    → ((a : A) → P (f a r.1).1)
    → P (and_then r f).1
and_then-ok P (ok a, u) f b h keep = keep a
and_then-ok P (err e, u) f b h keep = absurd (ground arith)

module _ (to_json : List (String × List String) → Option String) (now : ℕ) (s : StateInner)
    (v : Filed s) where
  -- Requeueing, and then the recount with the placements.
  module _ (dim : Resources → ℕ) (d : Dimension dim) where
    tick-Bounded : Bounded dim s (tick to_json now s).1
    unfolding tick
    tick-Bounded =
        let (w, first) = requeue_dead_nodes-Bounded dim now s v in
        and_then-P (Bounded dim s) (requeue_dead_nodes now s)
          (λ _ t. place_pending to_json now (recount_used t)) first
          (λ _.
            Bounded-trans dim s (requeue_dead_nodes now s).1 _ first
              (placed-Going to_json dim d now (requeue_dead_nodes now s).1 w).bounded)

    tick-Counted : (tick to_json now s).0 ≡ ok tt → Counted dim (tick to_json now s).1
    unfolding tick
    tick-Counted h =
        let (w, first) = requeue_dead_nodes-Bounded dim now s v in
        and_then-ok (Counted dim) (requeue_dead_nodes now s)
          (λ _ t. place_pending to_json now (recount_used t)) tt h
          (λ _. (placed-Going to_json dim d now (requeue_dead_nodes now s).1 w).counted)

  pub tick-ById : NodesById (tick to_json now s).1.nodes
  unfolding tick
  tick-ById =
      let (w, first) = requeue_dead_nodes-Bounded (λ r. r.cpu_millis) now s v in
      and_then-P (λ u. NodesById u.nodes) (requeue_dead_nodes now s)
        (λ _ t. place_pending to_json now (recount_used t)) w.nodes
        (λ _.
          (placed-Going to_json (λ r. r.cpu_millis) cpu_millis-Dimension now
            (requeue_dead_nodes now s).1 w).nodes)

  -- Where the tasks on every node are within its total, they are so behind a pass,
  -- whether it succeeds or a journal failure cuts it short.
  pub tick-Room :
      Room s.nodes s.tasks → Room (tick to_json now s).1.nodes (tick to_json now s).1.tasks
  tick-Room room id node g =
      let cpu = tick-Bounded _ cpu_millis-Dimension in
      let mem = tick-Bounded _ mem_mb-Dimension in
      let (old, here, e) = cpu.same id node g in
      let (old', here', e') = mem.same id node g in
      record {
        cpu = cpu.within id node g (
            subst (λ n. carried (λ r. r.cpu_millis) id s.tasks ≤ n) (sym e) (room id old here).cpu);
        mem =
            mem.within id node g (
              subst (λ n. carried (λ r. r.mem_mb) id s.tasks ≤ n) (sym e')
                (room id old' here').mem);
      }

  -- Behind a scheduling pass that succeeds, where nodes were filed under their ids and task ids
  -- unique, `used` of every node is what the tasks that are assigned to it or run on it take, whatever it was before: the sums
  -- of their resources, cut off at the largest `u64`.
  pub tick-taken :
      (tick to_json now s).0 ≡ ok tt
      → (id : NodeId) (node : NodeInfo) → get id (tick to_json now s).1.nodes ≡ some node
      → node.used ≡ taken id (tick to_json now s).1.tasks
  tick-taken h id node g =
      let cpu = tick-Counted _ cpu_millis-Dimension h id node g in
      let mem = tick-Counted _ mem_mb-Dimension h id node g in
      λ i. record { cpu_millis = cpu i; mem_mb = mem i }
