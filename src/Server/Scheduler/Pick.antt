-- ===== src/Server/Scheduler/Pick.antt =====
-- scheduler.rs: `pick_node` and `cmp_load`, the least-loaded node that fits.
use Prim.Native.Nat.{compare as compare_ℕ}
use Prim.Native.String.{compare}
use bigtop.Common.{
  ℕ, ◌*◌, Bool, true, false, ◌&&◌, Option, none, some, List, [], ◌∷◌, values, filter, ltb, ◌==◌,
  Ordering,
}
use mathlib.Core.Option
use mathlib.Core.List.{foldl}
use bigtop.Core.Ids.{NodeId}
use bigtop.Core.Resources.{fits_in}
use bigtop.Core.Types.{Task, NodeInfo, is_alive}
use bigtop.Server.State.{StateInner}

-- `Ordering::then`, `Ordering::then_with`
abbrev pub then : Ordering → Ordering → Ordering
then Ordering.lt o = Ordering.lt
then Ordering.eq o = o
then Ordering.gt o = Ordering.gt

abbrev pub usable : NodeInfo → Bool
usable node = ltb 0 node.total.cpu_millis && ltb 0 node.total.mem_mb

-- The comparison of two usable nodes: `used / total` of each, multiplied out. The products are of
-- two `u64` in a `u128`, so they do not overflow.
abbrev pub cmp_usable : NodeInfo → NodeInfo → Ordering
cmp_usable a b =
    then
      (compare_ℕ (a.used.cpu_millis * b.total.cpu_millis) (b.used.cpu_millis * a.total.cpu_millis))
      (compare_ℕ (a.used.mem_mb * b.total.mem_mb) (b.used.mem_mb * a.total.mem_mb))

-- The match of `cmp_load` on which nodes are usable.
abbrev pub cmp_cases : Bool → Bool → Ordering → Ordering
cmp_cases true false o = Ordering.lt
cmp_cases false true o = Ordering.gt
cmp_cases false false o = Ordering.eq
cmp_cases true true o = o

unfoldable pub cmp_load : NodeInfo → NodeInfo → Ordering
cmp_load a b = cmp_cases (usable a) (usable b) (cmp_usable a b)

-- The comparison that `min_by` is called with.
unfoldable pub cmp_node : NodeInfo → NodeInfo → Ordering
unfolding cmp_load
cmp_node a b = then (cmp_load a b) (compare a.id b.id)

-- `node_affinity.is_none_or(|pinned| pinned == node.id)`
abbrev pub allows : Option NodeId → NodeId → Bool
allows none id = true
allows (some pinned) id = pinned == id

-- The filter of `pick_node`.
unfoldable pub eligible : Task → ℕ → NodeInfo → Bool
eligible task now node =
    is_alive node now
    && fits_in task.spec.resources node.total node.used
    && allows task.spec.node_affinity node.id

-- The better of two nodes in `min_by`: the first one unless the second is smaller.
unfoldable pub better : NodeInfo → NodeInfo → NodeInfo
unfolding cmp_node
better a b = elim (cmp_node a b) [ Ordering.gt ↦ b | _ ↦ a ]

-- `iter.min_by(cmp)`
unfoldable pub min_node : List NodeInfo → Option NodeInfo
unfolding better
min_node [] = none
min_node (node ∷ nodes) = some (foldl better node nodes)

unfoldable pub pick_node : StateInner → Task → ℕ → Option NodeId
unfolding eligible min_node
pick_node s task now =
    Option.map (λ node. node.id) (min_node (filter (eligible task now) (values s.nodes)))
