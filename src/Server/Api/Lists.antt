-- ===== src/Server/Api/Lists.antt =====
-- api.rs and state.rs: the lists that an agent polls hold exactly what is meant for it, in order.
use bigtop.Common.{
  ◌≡◌, refl, Bool, true, false, not, ◌&&◌, Option, none, some, List, [], ◌∷◌, String, get, values,
  filter, arith, All, All-filter, All-imp, ◌==◌, eq_iff, Option-cases, inl, inr, ℕ,
}
use bigtop.Common.Order.{compare_swap}
use bigtop.Common.Sort.{le_str}
use bigtop.Common.Sorted.{In, In-sort_by, In-filter, Sorted, Sorted-sort_by}
use bigtop.Common.Distinct.{All-sort_by}
use bigtop.Core.Ids.{TaskId, NodeId}
use bigtop.Core.Network.{Ipv4Addr}
use bigtop.Core.Types.{Task, TaskState, NodeInfo, is_assigned, is_alive}
use bigtop.Core.Wire.{OverlayPeer}
use bigtop.Server.State.{StateInner}
use bigtop.Server.State.Listings.{In-values}
use bigtop.Server.Api.Reads.{assignments, is_node, le_task, overlay_peers, peers_of, le_peer}

le_str_total : (a b : String) → le_str a b ≡ false → le_str b a ≡ true
le_str_total a b h = rw (compare_swap a b) (ground arith)

-- What holds of every element holds of all.
All-In {ℓ κ} : {A : Type ℓ} (P : A → Type κ) (xs : List A) → ((x : A) → In x xs → P x) → All P xs
All-In P [] h = tt
All-In P (x ∷ xs) h = (h x In.first, All-In P xs λ y i. h y (In.later i))

-- `out` is the list of the tasks that the node has to pick up, by id.
pub record Assigned (s : StateInner) (node_id : NodeId) (out : List Task) : Type 0 where
  pub sorted : Sorted le_task out
  pub sound :
      All
        (λ t.
          In t (values s.tasks) × (t.state ≡ TaskState.assigned) × (t.assigned_node ≡ some node_id))
        out
  pub complete :
      (k : TaskId) (t : Task)
      → get k s.tasks ≡ some t
      → t.state ≡ TaskState.assigned
      → t.assigned_node ≡ some node_id
      → In t out

is_assigned-eq : (x : TaskState) → is_assigned x ≡ true → x ≡ TaskState.assigned
unfolding is_assigned
is_assigned-eq x h = ground arith

is_node-eq : (o : Option NodeId) (node_id : NodeId) → is_node o node_id ≡ true → o ≡ some node_id
is_node-eq none node_id h = absurd (ground arith)
is_node-eq (some id) node_id h = ground (arith, eq_iff id node_id)

-- The assignments that an agent polls are sorted by id, are all tasks of the server that are
-- assigned to its node and not yet picked up, and no such task is left out.
pub assignments-Assigned :
    (s : StateInner) (node_id : NodeId) → Assigned s node_id (assignments s node_id)
unfolding assignments is_assigned
assignments-Assigned s node_id = record {
  sorted = Sorted-sort_by le_task (λ a b h. le_str_total a.id b.id h) (filter own (values s.tasks));
  sound = All-sort_by le_task _ (filter own (values s.tasks)) (
      All-imp _ _ (filter own (values s.tasks))
        (λ t p. (
          p.0,
          is_assigned-eq t.state (ground arith),
          is_node-eq t.assigned_node node_id (ground arith),
        ))
        (All-filter (λ t. In t (values s.tasks)) own (values s.tasks)
          (All-In _ (values s.tasks) λ t i. i)));
  complete = λ k t g a n. In-sort_by le_task t (filter own (values s.tasks)) (
      In-filter own t (values s.tasks)
        (rw (a, n, is_assigned) (ground (arith, eq_iff node_id node_id)))
        (In-values k t s.tasks g));
}
  where
    own : Task → Bool
    own t = is_assigned t.state && is_node t.assigned_node node_id

-- `out` is the mesh as the node sees it: the other live nodes with an underlay address, by id.
pub record Mesh (s : StateInner) (node_id : NodeId) (now : ℕ) (out : List OverlayPeer)
    : Type 0 where
  pub sorted : Sorted le_peer out
  pub sound :
      All
        (λ p.
          (node : NodeInfo) × In node (values s.nodes)
          × (is_alive node now ≡ true)
          × ((node.id == node_id) ≡ false)
          × (p.node_id ≡ node.id)
          × (node.underlay_ip ≡ some p.underlay_ip))
        out
  pub complete :
      (k : NodeId) (node : NodeInfo) (ip : Ipv4Addr)
      → get k s.nodes ≡ some node
      → is_alive node now ≡ true
      → (node.id == node_id) ≡ false
      → node.underlay_ip ≡ some ip
      → In (record { node_id = node.id; underlay_ip = ip }) out

In-peers_of :
    (node : NodeInfo) (ip : Ipv4Addr) (nodes : List NodeInfo)
    → node.underlay_ip ≡ some ip
    → In node nodes
    → In (record { node_id = node.id; underlay_ip = ip }) (peers_of nodes)
unfolding peers_of
In-peers_of node ip _ h (In.first {xs}) = rw (h, peers_of) In.first
In-peers_of node ip _ h (In.later {y} {xs} i) = elim (Option-cases y.underlay_ip) [
  | inl without ↦ rw (without, peers_of) (In-peers_of node ip xs h i)
  | inr (other, there) ↦ rw (there, peers_of) (In.later (In-peers_of node ip xs h i))
]

All-peers_of {κ} :
    (P : NodeInfo → Type κ) (nodes : List NodeInfo)
    → All P nodes
    → All
        (λ p.
          (node : NodeInfo) × P node
          × (p.node_id ≡ node.id)
          × (node.underlay_ip ≡ some p.underlay_ip))
        (peers_of nodes)
unfolding peers_of
All-peers_of P [] h = tt
All-peers_of P (node ∷ nodes) h = elim (Option-cases node.underlay_ip) [
  | inl without ↦ rw (without, peers_of) (All-peers_of P nodes h.1)
  | inr (ip, there) ↦ rw (there, peers_of) ((node, h.0, refl, there), All-peers_of P nodes h.1)
]

-- x
pub overlay_peers-Mesh :
    (s : StateInner) (node_id : NodeId) (now : ℕ) → Mesh s node_id now (overlay_peers s node_id now)
unfolding overlay_peers
overlay_peers-Mesh s node_id now = record {
  sorted = Sorted-sort_by le_peer (λ a b h. le_str_total a.node_id b.node_id h) (peers_of others);
  sound = All-sort_by le_peer _ (peers_of others) (
      All-imp _ _ (peers_of others) (λ p e. (e.0, e.1.0, ground arith, ground arith, e.2, e.3))
        (All-peers_of _ others (
          All-filter (λ node. In node (values s.nodes)) other (values s.nodes)
            (All-In _ (values s.nodes) λ node i. i))));
  complete = λ k node ip g alive different at. In-sort_by le_peer _ (peers_of others) (
      In-peers_of node ip others at (
        In-filter other node (values s.nodes) (rw (alive, different) refl)
          (In-values k node s.nodes g)));
}
  where
    other : NodeInfo → Bool
    other node = not (node.id == node_id) && is_alive node now

    others : List NodeInfo
    others = filter other (values s.nodes)
