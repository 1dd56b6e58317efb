-- ===== src/Server/Scheduler/Recount.antt =====
-- scheduler.rs: `recount_used` against the exact sums.
use Prim.Native.Nat.{min}
use bigtop.Common.{
  some-eq, ℕ, ◌+◌, ◌≤◌, ◌≡◌, refl, ◌∙◌, subst, Option, none, some, List, [], ◌∷◌, HashMap, get,
  get-insert, insert, values, arith, ◌==◌, eq_iff, if◌then◌else◌, unwrap_or, Bool-cases,
  Option-cases, inl, inr, UniqueKeys, UniqueKeys-insert, get-map_values, get-map_values-none,
}
use mathlib.Core.List.{foldl}
use bigtop.Core.Ids.{NodeId}
use bigtop.Core.Resources.{Resources, default, saturating_add, u64_max}
use bigtop.Core.Types.{Task, NodeInfo, holds_resources}
use bigtop.Server.State.{StateInner}
use bigtop.Server.Scheduler.{hold, set_used, reset_used, recount_used}
use bigtop.Server.Scheduler.Load.{Dimension, share, load, carried}

-- ---------------------------------------------------------------- the loop over the tasks

hold-UniqueKeys :
    (held : HashMap Resources) (task : Task) → UniqueKeys held → UniqueKeys (hold held task)
unfolding hold
hold-UniqueKeys held task u = elim (Bool-cases (holds_resources task.state)) [
  | inr idle ↦ rw (idle, hold) u
  | inl busy ↦ elim (Option-cases task.assigned_node) [
    | inl nowhere ↦ rw (busy, nowhere, hold) u
    | inr (node, there) ↦ rw (busy, there, hold) (UniqueKeys-insert node _ held u)
  ]
]

hold_all-UniqueKeys :
    (tasks : List Task) (held : HashMap Resources)
    → UniqueKeys held
    → UniqueKeys (foldl hold held tasks)
hold_all-UniqueKeys [] held u = u
hold_all-UniqueKeys (task ∷ tasks) held u =
    hold_all-UniqueKeys tasks (hold held task) (hold-UniqueKeys held task u)

module _ (dim : Resources → ℕ) (d : Dimension dim) (id : NodeId) where
  -- What the table of the loop holds for the node.
  abbrev held_at : HashMap Resources → ℕ
  held_at held = dim (unwrap_or default (get id held))

  held_at-insert :
      (node : NodeId) (need : Resources) (held : HashMap Resources)
      → held_at held ≤ u64_max
      → held_at (insert node (saturating_add (unwrap_or default (get node held)) need) held)
        ≡ min (held_at held + (if node == id then dim need else 0)) u64_max
  held_at-insert node need held h = elim (Bool-cases (node == id)) [
    | inl same ↦
        rw (get-insert node id _ held, same, (eq_iff node id).0 same)
          (d.adds (unwrap_or default (get id held)) need)
    | inr other ↦ rw (get-insert node id _ held, other) (omega arith)
  ]

  held_at-hold :
      (held : HashMap Resources) (task : Task)
      → held_at held ≤ u64_max
      → held_at (hold held task) ≡ min (held_at held + share dim id task) u64_max
  unfolding hold
  held_at-hold held task h = elim (Bool-cases (holds_resources task.state)) [
    | inr idle ↦ rw (idle, hold) (omega arith)
    | inl busy ↦ elim (Option-cases task.assigned_node) [
      | inl nowhere ↦ rw (busy, nowhere, hold) (omega arith)
      | inr (node, there) ↦ rw (busy, there, hold) (held_at-insert node task.spec.resources held h)
    ]
  ]

  held_at-foldl :
      (tasks : List Task) (held : HashMap Resources)
      → held_at held ≤ u64_max
      → held_at (foldl hold held tasks) ≡ min (held_at held + load dim id tasks) u64_max
  held_at-foldl [] held h = omega arith
  held_at-foldl (task ∷ tasks) held h =
      let one = held_at-hold held task h in
      let rest = held_at-foldl tasks (hold held task) (omega arith) in omega arith

-- ---------------------------------------------------------------- the loop over what is held

abbrev with_used : Option Resources → NodeInfo → NodeInfo
with_used none node = node
with_used (some used) node = record node { used = used }

get-set_used :
    (nodes : HashMap NodeInfo) (k id : NodeId) (used : Resources) (node : NodeInfo)
    → get id nodes ≡ some node
    → get id (set_used nodes (k, used))
      ≡ some (if k == id then record node { used = used } else node)
unfolding set_used
get-set_used nodes k id used node h = elim (Option-cases (get k nodes)) [
  | inl missing ↦ rw (missing, set_used) (ground (arith, eq_iff k id))
  | inr (old, found) ↦
      rw (found, set_used)
        (ground (arith, eq_iff k id, get-insert k id (record old { used = used }) nodes))
]

get-set_all :
    (held : HashMap Resources) (nodes : HashMap NodeInfo) (id : NodeId) (node : NodeInfo)
    → UniqueKeys held
    → get id nodes ≡ some node
    → get id (foldl set_used nodes held) ≡ some (with_used (get id held) node)
unfolding get
get-set_all [] nodes id node u h = h
get-set_all ((k, used) ∷ held) nodes id node u h = elim (Bool-cases (k == id)) [
  | inl same ↦
      let absent : get id held ≡ none = ground (arith, eq_iff k id) in
      get-set_all held _ id (record node { used = used }) u.1
        (get-set_used nodes k id used node h ∙ rw same refl)
      ∙ rw (same, absent) refl
  | inr other ↦
      get-set_all held _ id node u.1 (get-set_used nodes k id used node h ∙ rw other refl)
      ∙ rw other refl
]

absent-set_used :
    (nodes : HashMap NodeInfo) (e : NodeId × Resources) (id : NodeId)
    → get id nodes ≡ none
    → get id (set_used nodes e) ≡ none
unfolding set_used
absent-set_used nodes (k, used) id h = elim (Option-cases (get k nodes)) [
  | inl missing ↦ rw (missing, set_used) h
  | inr (old, found) ↦
      rw (found, set_used)
        (ground (arith, eq_iff k id, get-insert k id (record old { used = used }) nodes))
]

absent-set_all :
    (held : HashMap Resources) (nodes : HashMap NodeInfo) (id : NodeId)
    → get id nodes ≡ none
    → get id (foldl set_used nodes held) ≡ none
absent-set_all [] nodes id h = h
absent-set_all (e ∷ held) nodes id h =
    absent-set_all held (set_used nodes e) id (absent-set_used nodes e id h)

-- ---------------------------------------------------------------- the whole count

-- The node that a recount leaves: the same machine, with the load of its tasks.
pub record Recounted (dim : Resources → ℕ) (id : NodeId) (s : StateInner) (node : NodeInfo)
    : Type 0 where
  pub old : NodeInfo
  pub here : get id s.nodes ≡ some old
  pub total : node.total ≡ old.total
  pub used : dim node.used ≡ carried dim id s.tasks

module _ (dim : Resources → ℕ) (d : Dimension dim) (id : NodeId) (s : StateInner) where
  abbrev table : HashMap Resources
  table = foldl hold [] (values s.tasks)

  abbrev cleared : NodeInfo → NodeInfo
  cleared node = record node { used = default }

  table-counted : dim (unwrap_or default (get id table)) ≡ carried dim id s.tasks
  unfolding get
  table-counted =
      let start = d.nil in
      let sum = held_at-foldl dim d id (values s.tasks) [] (omega arith) in omega arith

  cleared-Recounted :
      (old : NodeInfo) (o : Option Resources)
      → get id s.nodes ≡ some old
      → get id table ≡ o
      → Recounted dim id s (with_used o (cleared old))
  cleared-Recounted old none here e = record {
    old = old;
    here = here;
    total = refl;
    used = subst (λ o. dim (unwrap_or default o) ≡ carried dim id s.tasks) e table-counted;
  }
  cleared-Recounted old (some used) here e = record {
    old = old;
    here = here;
    total = refl;
    used = subst (λ o. dim (unwrap_or default o) ≡ carried dim id s.tasks) e table-counted;
  }

  -- A recount resets what every node has used to the load of its tasks.
  pub recount_used-Recounted :
      (node : NodeInfo) → get id (recount_used s).nodes ≡ some node → Recounted dim id s node
  unfolding recount_used
  recount_used-Recounted node h = elim (Option-cases (get id s.nodes)) [
    | inl missing ↦
        let gone : get id (reset_used s.nodes) ≡ none =
          get-map_values-none cleared id s.nodes missing in
        absurd (ground (arith, absent-set_all table (reset_used s.nodes) id gone))
    | inr (old, here) ↦
        let there : get id (reset_used s.nodes) ≡ some (cleared old) =
          get-map_values cleared id s.nodes old here in
        let final =
          get-set_all table (reset_used s.nodes) id (cleared old)
            (hold_all-UniqueKeys (values s.tasks) [] tt) there in
        subst (Recounted dim id s) (some-eq final h)
          (cleared-Recounted old (get id table) here refl)
  ]
