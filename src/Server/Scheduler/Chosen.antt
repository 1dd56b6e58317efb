-- ===== src/Server/Scheduler/Chosen.antt =====
-- The node that `pick_node` returns is one of the nodes, and eligible.
use bigtop.Common.{
  subst, sym, ◌⊎◌, ℕ, ◌≡◌, Bool, true, none, some, List, [], ◌∷◌, HashMap, get, arith, All,
  All-filter, All-values, values, filter, inl, inr, Option-cases, Bool-cases, false, ◌==◌,
}
use mathlib.Core.List.{foldl}
use bigtop.Core.Ids.{NodeId}
use bigtop.Core.Types.{Task, NodeInfo}
use bigtop.Server.State.{StateInner}
use bigtop.Server.State.Invariant.{NodesById}
use bigtop.Server.Scheduler.Pick.{better, min_node, pick_node, eligible}

better-cases : (a b : NodeInfo) → (better a b ≡ a) ⊎ (better a b ≡ b)
unfolding better
better-cases a b = ground arith

-- What holds of all nodes holds of the least.
better-All :
    (P : NodeInfo → Type 0) (a : NodeInfo) (nodes : List NodeInfo)
    → P a
    → All P nodes
    → P (foldl better a nodes)
better-All P a [] h hs = h
better-All P a (b ∷ nodes) h hs = better-All P (better a b) nodes (either a b h hs.0) hs.1
  where
    either : (x y : NodeInfo) → P x → P y → P (better x y)
    either x y px py = elim (better-cases x y) [ inl e ↦ rw e px | inr e ↦ rw e py ]

min_node-All :
    (P : NodeInfo → Type 0) (nodes : List NodeInfo) (node : NodeInfo)
    → All P nodes
    → min_node nodes ≡ some node
    → P node
unfolding min_node
min_node-All P [] node hs e = absurd (ground arith)
min_node-All P (a ∷ nodes) node hs e = subst P (ground arith) (better-All P a nodes hs.0 hs.1)

-- The chosen node.
pub record Chosen (s : StateInner) (task : Task) (now : ℕ) (id : NodeId) : Type 0 where
  pub node : NodeInfo
  pub here : get id s.nodes ≡ some node
  pub own : node.id ≡ id
  pub fit : eligible task now node ≡ true

-- The least of the eligible nodes is filed under its id.
pub min_node-filed :
    (s : StateInner) (task : Task) (now : ℕ) (node : NodeInfo)
    → NodesById s.nodes
    → min_node (filter (eligible task now) (values s.nodes)) ≡ some node
    → (get node.id s.nodes ≡ some node) × (eligible task now node ≡ true)
min_node-filed s task now node v found =
    min_node-All (λ n. (get n.id s.nodes ≡ some n) × (eligible task now n ≡ true))
      (filter (eligible task now) (values s.nodes)) node all_good found
  where
    all_good :
        All
          (λ n. (get n.id s.nodes ≡ some n) × (eligible task now n ≡ true))
          (filter (eligible task now) (values s.nodes))
    all_good =
        All-filter (λ node. get node.id s.nodes ≡ some node) (eligible task now) (values s.nodes)
          (All-values _ s.nodes v.unique
            λ k node g. subst (λ i. get i s.nodes ≡ some node) (sym (v.filed k node g)) g)

-- A node that `pick_node` returns is there, and eligible.
pub pick_node-Chosen :
    (s : StateInner) (task : Task) (now : ℕ) (id : NodeId)
    → NodesById s.nodes
    → pick_node s task now ≡ some id
    → Chosen s task now id
unfolding pick_node
pick_node-Chosen s task now id v e =
    elim (Option-cases (min_node (filter (eligible task now) (values s.nodes)))) [
      | inl nobody ↦ absurd (ground arith)
      | inr (node, found) ↦
          let (here, fit) = min_node-filed s task now node v found in
          let own : node.id ≡ id = ground arith in
          record { node = node; here = rw (← own) here; own = own; fit = fit }
    ]

pub filter-none_inv :
    (p : NodeInfo → Bool) (nodes : List NodeInfo)
    → min_node (filter p nodes) ≡ none
    → All (λ node. p node ≡ false) nodes
unfolding min_node
filter-none_inv p [] h = tt
filter-none_inv p (node ∷ nodes) h = elim (Bool-cases (p node)) [
  | inl pass ↦ absurd (ground arith)
  | inr fail ↦ (fail, filter-none_inv p nodes (rw fail at h))
]

pub All-get :
    (P : NodeInfo → Type 0) (nodes : HashMap NodeInfo) (id : NodeId) (node : NodeInfo)
    → All P (values nodes)
    → get id nodes ≡ some node
    → P node
unfolding get
All-get P [] id node hs g = absurd (ground arith)
All-get P ((j, other) ∷ nodes) id node hs g = elim (Bool-cases (j == id)) [
  | inl here ↦ subst P (ground arith) hs.0
  | inr there ↦ All-get P nodes id node hs.1 (ground arith)
]
