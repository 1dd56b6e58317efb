-- ===== src/Server/Scheduler/Load.antt =====
-- scheduler.rs: what the tasks on a node take of one resource, as an exact sum.
use Prim.Native.Nat.{min}
use bigtop.Common.{
  All, ℕ, ◌+◌, ◌≤◌, ◌≡◌, refl, Bool, true, false, ◌&&◌, Option, none, some, List, [], ◌∷◌, HashMap,
  get, insert, values, arith, ◌==◌, if◌then◌else◌,
}
use bigtop.Core.Ids.{NodeId, TaskId}
use bigtop.Core.Resources.{
  Resources, default, saturating_add, saturating_add_u64, fits_in, u64_max, saturating_add-Within,
}
use bigtop.Core.Types.{Task, holds_resources}

abbrev pub is_at : NodeId → Option NodeId → Bool
is_at id none = false
is_at id (some other) = other == id

-- One of the two resources.
pub record Dimension (dim : Resources → ℕ) : Type 0 where
  pub nil : dim default ≡ 0
  pub adds : (a b : Resources) → dim (saturating_add a b) ≡ min (dim a + dim b) u64_max
  pub fits :
      (need total used : Resources)
      → fits_in need total used ≡ true
      → dim (saturating_add used need) ≤ dim total

pub cpu_millis-Dimension : Dimension (λ r. r.cpu_millis)
unfolding saturating_add saturating_add_u64
cpu_millis-Dimension = record {
  nil = refl;
  adds = λ a b. refl;
  fits = λ need total used h. (saturating_add-Within need total used h).cpu;
}

pub mem_mb-Dimension : Dimension (λ r. r.mem_mb)
unfolding saturating_add saturating_add_u64
mem_mb-Dimension = record {
  nil = refl;
  adds = λ a b. refl;
  fits = λ need total used h. (saturating_add-Within need total used h).mem;
}

module _ (dim : Resources → ℕ) where
  -- What a task takes of a node.
  abbrev pub share : NodeId → Task → ℕ
  share id task =
      if holds_resources task.state && is_at id task.assigned_node
      then dim task.spec.resources
      else 0

  abbrev pub load : NodeId → List Task → ℕ
  load id [] = 0
  load id (task ∷ tasks) = share id task + load id tasks

  -- The load as the accounting can hold it, in a `u64`.
  abbrev pub carried : NodeId → HashMap Task → ℕ
  carried id tasks = min (load id (values tasks)) u64_max

  -- A task that does not hold resources takes nothing.
  pub share-idle :
      (id : NodeId) (task : Task) → holds_resources task.state ≡ false → share id task ≡ 0
  share-idle id task h = rw h refl

  pub load-insert :
      (id : NodeId) (k : TaskId) (a b : Task) (tasks : HashMap Task)
      → get k tasks ≡ some a
      → load id (values (insert k b tasks)) + share id a ≡ load id (values tasks) + share id b
  unfolding get insert
  load-insert id k a b [] h = absurd (ground arith)
  load-insert id k a b ((j, t) ∷ tasks) h = ground (arith, load-insert id k a b tasks)

  -- Whatever stood under that id.
  pub load-insert_le :
      (id : NodeId) (k : TaskId) (b : Task) (tasks : HashMap Task)
      → load id (values (insert k b tasks)) ≤ load id (values tasks) + share id b
  unfolding insert
  load-insert_le id k b [] = omega arith
  load-insert_le id k b ((j, t) ∷ tasks) = ground (arith, load-insert_le id k b tasks)

  pub load-apart :
      (id : NodeId) (tasks : List Task)
      → All (λ t. is_at id t.assigned_node ≡ false) tasks
      → load id tasks ≡ 0
  load-apart id [] h = refl
  load-apart id (t ∷ tasks) h = ground (arith, load-apart id tasks h.1)
