-- ===== src/Server/Scheduler/Picked.antt =====
-- scheduler.rs: what `pick_node` promises.
use bigtop.Common.{
  ℕ, ◌≡◌, true, false, Option, none, some, List, [], ◌∷◌, get, arith, All, values, filter, inl, inr,
  Option-cases, Bool-cases, Bool, refl, subst,
}
use mathlib.Core.List.{foldl}
use bigtop.Core.Ids.{NodeId}
use bigtop.Core.Types.{Task, NodeInfo}
use bigtop.Server.State.{StateInner}
use bigtop.Server.State.Invariant.{NodesById}
use bigtop.Server.Scheduler.Pick.{better, min_node, pick_node, eligible}
use bigtop.Server.Scheduler.Least.{NotAfter, NotAfter-foldl}
use bigtop.Server.Scheduler.Chosen.{Chosen, min_node-filed, All-get, filter-none_inv}

-- What the choice of a node for a task comes to.
pub data Picked (s : StateInner) (task : Task) (now : ℕ) : Option NodeId → Type 0 where
  -- No node is eligible.
  nobody :
      ((id : NodeId) (node : NodeInfo)
        → get id s.nodes ≡ some node
        → eligible task now node ≡ false)
      → Picked s task now none
  -- The node is eligible, and stands behind no other one that is.
  somebody :
      {id : NodeId} (chosen : Chosen s task now id)
      → ((other : NodeId) (node : NodeInfo)
          → get other s.nodes ≡ some node
          → eligible task now node ≡ true
          → NotAfter chosen.node node)
      → Picked s task now (some id)

least-NotAfter :
    (nodes : List NodeInfo) (least : NodeInfo)
    → min_node nodes ≡ some least
    → All (NotAfter least) nodes
unfolding min_node
least-NotAfter [] least h = absurd (ground arith)
least-NotAfter (x ∷ nodes) least h =
    subst (λ m. All (NotAfter m) (x ∷ nodes)) {x = foldl better x nodes} {y = least} (ground arith)
      (first_and_rest (NotAfter-foldl x nodes))
  where
    first_and_rest :
        NotAfter (foldl better x nodes) x × All (NotAfter (foldl better x nodes)) nodes
        → All (NotAfter (foldl better x nodes)) (x ∷ nodes)
    first_and_rest h = h

-- What all nodes that pass the filter have.
All-filter_inv :
    (P : NodeInfo → Type 0) (p : NodeInfo → Bool) (nodes : List NodeInfo)
    → All P (filter p nodes)
    → All (λ node. p node ≡ true → P node) nodes
All-filter_inv P p [] h = tt
All-filter_inv P p (node ∷ nodes) h = elim (Bool-cases (p node)) [
  | inl pass ↦ let (own, rest) = rw pass at h in ((λ _. own), All-filter_inv P p nodes rest)
  | inr fail ↦ ((λ e. absurd (ground arith)), All-filter_inv P p nodes (rw fail at h))
]

-- Where the nodes are filed under their ids: `pick_node` returns nothing only where no node at all is
-- eligible, and else a node that is there and eligible, that is, alive, with room for the task, and the
-- one the task is pinned to, if it is pinned; and no eligible node has less load, in the order of
-- `cmp_load`, nor the same load and a smaller id.
pub pick_node-Picked :
    (s : StateInner) (task : Task) (now : ℕ)
    → NodesById s.nodes
    → Picked s task now (pick_node s task now)
unfolding pick_node
pick_node-Picked s task now v = elim (Option-cases (min_node candidates)) [
  | inl empty ↦ rw empty (
      Picked.nobody λ id node g.
        All-get _ s.nodes id node (filter-none_inv (eligible task now) (values s.nodes) empty) g)
  | inr (least, found) ↦
      let (here, fit) = min_node-filed s task now least v found in
      rw found (
        Picked.somebody (record { node = least; here = here; own = refl; fit = fit })
          λ other node g.
            All-get _ s.nodes other node
              (All-filter_inv (NotAfter least) (eligible task now) (values s.nodes)
                (least-NotAfter candidates least found))
              g)
]
  where
    candidates : List NodeInfo
    candidates = filter (eligible task now) (values s.nodes)
