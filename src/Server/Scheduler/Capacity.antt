-- ===== src/Server/Scheduler/Capacity.antt =====
-- scheduler.rs: one placement, in the accounting of the nodes.
use bigtop.Common.{
  ℕ, ◌+◌, ◌≤◌, ◌≡◌, refl, sym, ap, ◌∙◌, subst, true, false, Option, none, some, String, HashMap,
  get, get-insert, insert, values, arith, ◌==◌, eq_iff, if◌then◌else◌, Bool-cases, inl, inr,
}
use bigtop.Core.Ids.{NodeId, TaskId}
use bigtop.Core.Network.{NetworkAssignment}
use bigtop.Core.Resources.{Resources, saturating_add, fits_in}
use bigtop.Core.Types.{Task, NodeInfo, holds_resources}
use bigtop.Server.State.{StateInner}
use bigtop.Server.Scheduler.{assign}
use bigtop.Server.Scheduler.Pick.{eligible}
use bigtop.Server.Scheduler.Chosen.{Chosen}
use bigtop.Server.Scheduler.Load.{Dimension, share, load, carried, load-insert, share-idle}

-- Each node has used what its tasks take.
abbrev pub Counted : (Resources → ℕ) → StateInner → Type 0
Counted dim s =
    (id : NodeId) (node : NodeInfo)
    → get id s.nodes ≡ some node
    → dim node.used ≡ carried dim id s.tasks

-- The nodes of `u` are nodes of `s`, and what was within a node's total still is.
pub record Bounded (dim : Resources → ℕ) (s u : StateInner) : Type 0 where
  pub same :
      (id : NodeId) (node : NodeInfo)
      → get id u.nodes ≡ some node
      → (old : NodeInfo) × (get id s.nodes ≡ some old) × (dim node.total ≡ dim old.total)
  pub within :
      (id : NodeId) (node : NodeInfo)
      → get id u.nodes ≡ some node
      → carried dim id s.tasks ≤ dim node.total
      → carried dim id u.tasks ≤ dim node.total

pub Bounded-trans :
    (dim : Resources → ℕ) (s u v : StateInner) → Bounded dim s u → Bounded dim u v → Bounded dim s v
Bounded-trans dim s u v h k = record {
  same = λ id node g.
      let (mid, there, e) = k.same id node g in
      let (old, here, e') = h.same id mid there in (old, here, e ∙ e');
  within = λ id node g w.
      let (mid, there, e) = k.same id node g in
      k.within id node g (
        subst (λ n. carried dim id u.tasks ≤ n) (sym e)
          (h.within id mid there (subst (λ n. carried dim id s.tasks ≤ n) e w)));
}

-- The load of no node grows.
pub Bounded-less :
    (dim : Resources → ℕ) (s u : StateInner)
    → u.nodes ≡ s.nodes
    → ((id : NodeId) → load dim id (values u.tasks) ≤ load dim id (values s.tasks))
    → Bounded dim s u
Bounded-less dim s u n less = record {
  same = λ id node g. (node, subst (λ m. get id m ≡ some node) n g, refl);
  within = λ id node g w. let fewer = less id in omega arith;
}

pub Bounded-refl : (dim : Resources → ℕ) (s : StateInner) → Bounded dim s s
Bounded-refl dim s = Bounded-less dim s s refl (λ id. omega arith)

eligible-fits :
    (task : Task) (now : ℕ) (node : NodeInfo)
    → eligible task now node ≡ true
    → fits_in task.spec.resources node.total node.used ≡ true
unfolding eligible
eligible-fits task now node h = ground arith

module _ (dim : Resources → ℕ) (d : Dimension dim) (now : ℕ) (task_id : TaskId) (task : Task)
    (node_id : NodeId) (network : Option NetworkAssignment) (env : Option String) (s : StateInner)
    (found : get task_id s.tasks ≡ some task) (idle : holds_resources task.state ≡ false)
    (c : Chosen s task now node_id) where
  abbrev placed_tasks : HashMap Task
  placed_tasks = insert task_id (assign c.node.id network env task) s.tasks

  abbrev placed_node : NodeInfo
  placed_node = record c.node { used = saturating_add c.node.used task.spec.resources }

  abbrev placed_nodes : HashMap NodeInfo
  placed_nodes = insert node_id placed_node s.nodes

  share-assign :
      (env : Option String) (id : NodeId)
      → share dim id (assign c.node.id network env task)
        ≡ (if node_id == id then dim task.spec.resources else 0)
  unfolding holds_resources
  share-assign none id = rw c.own
  share-assign (some text) id = rw c.own

  load-placed :
      (id : NodeId)
      → load dim id (values placed_tasks)
        ≡ load dim id (values s.tasks) + (if node_id == id then dim task.spec.resources else 0)
  load-placed id =
      let sum = load-insert dim id task_id task (assign c.node.id network env task) s.tasks found in
      let before = share-idle dim id task idle in let behind = share-assign env id in omega arith

  load-placed_here :
      load dim node_id (values placed_tasks)
      ≡ load dim node_id (values s.tasks) + dim task.spec.resources
  load-placed_here = load-placed node_id ∙ rw ((eq_iff node_id node_id).1 refl) refl

  load-placed_other :
      (id : NodeId)
      → node_id == id ≡ false
      → load dim id (values placed_tasks) ≡ load dim id (values s.tasks)
  load-placed_other id other = load-placed id ∙ rw other (omega arith)

  node-placed :
      (id : NodeId) (node : NodeInfo)
      → node_id == id ≡ false
      → get id placed_nodes ≡ some node
      → get id s.nodes ≡ some node
  node-placed id node other g = ground (arith, get-insert node_id id placed_node s.nodes)

  placed_node-Counted : Counted dim s → dim placed_node.used ≡ carried dim node_id placed_tasks
  placed_node-Counted counted =
      let before = counted node_id c.node c.here in
      let sum = d.adds c.node.used task.spec.resources in let load = load-placed_here in omega arith

  -- Behind a placement each node still has used what its tasks take.
  pub placed-Counted :
      Counted dim s
      → (id : NodeId) (node : NodeInfo) → get id placed_nodes ≡ some node
      → dim node.used ≡ carried dim id placed_tasks
  placed-Counted counted id node g = elim (Bool-cases (node_id == id)) [
    | inl same ↦
        let there : placed_node ≡ node =
          ground (arith, get-insert node_id id placed_node s.nodes) in
        let own : node_id ≡ id = (eq_iff node_id id).0 same in
        ap (λ n. dim n.used) (sym there)
        ∙ subst (λ i. dim placed_node.used ≡ carried dim i placed_tasks) own
            (placed_node-Counted counted)
    | inr other ↦
        let before = counted id node (node-placed id node other g) in
        let load = load-placed_other id other in omega arith
  ]

  -- The node's total has room for the task.
  pub placed-within :
      Counted dim s
      → (id : NodeId) (node : NodeInfo) → get id placed_nodes ≡ some node
      → carried dim id s.tasks ≤ dim node.total
      → carried dim id placed_tasks ≤ dim node.total
  placed-within counted id node g w = elim (Bool-cases (node_id == id)) [
    | inl same ↦
        let there : placed_node ≡ node =
          ground (arith, get-insert node_id id placed_node s.nodes) in
        let own : node_id ≡ id = (eq_iff node_id id).0 same in
        let sum = placed_node-Counted counted in
        let room =
          d.fits task.spec.resources c.node.total c.node.used
            (eligible-fits task now c.node c.fit) in
        let fits : carried dim node_id placed_tasks ≤ dim c.node.total = omega arith in
        subst (λ n. carried dim id placed_tasks ≤ dim n.total) there
          (subst (λ i. carried dim i placed_tasks ≤ dim c.node.total) own fits)
    | inr other ↦ let load = load-placed_other id other in omega arith
  ]

  pub placed-same :
      (id : NodeId) (node : NodeInfo)
      → get id placed_nodes ≡ some node
      → (old : NodeInfo) × (get id s.nodes ≡ some old) × (dim node.total ≡ dim old.total)
  placed-same id node g = elim (Bool-cases (node_id == id)) [
    | inl same ↦
        let there : placed_node ≡ node =
          ground (arith, get-insert node_id id placed_node s.nodes) in
        (
          c.node,
          subst (λ i. get i s.nodes ≡ some c.node) ((eq_iff node_id id).0 same) c.here,
          ap (λ n. dim n.total) (sym there),
        )
    | inr other ↦ (node, node-placed id node other g, refl)
  ]
