-- ===== src/Server/Lifecycle/Owners.antt =====
-- state.rs and ipam.rs together: whose addresses are taken from the pool.
use bigtop.Common.{
  ℕ, ◌≡◌, ◌≢◌, refl, sym, ◌∙◌, subst, true, none, some, Option, HashMap, get, get-insert,
  get-insert_ne, get-remove, insert, insert_same, remove, arith, eq_iff, ◌==◌, Bool-cases,
  Option-cases, inl, inr,
}
use bigtop.Core.Ids.{TaskId, NodeId}
use bigtop.Core.Network.{Ipv4Addr}
use bigtop.Core.Types.{NodeInfo, Task, holds_resources}
use bigtop.Server.Ipam.{Ipam, allocate, allocate_new, allocate_host, subnet_octet, new_subnet}
use bigtop.Server.State.{StateInner}

-- The task of that id is assigned or runs.
pub record Owner (id : TaskId) (tasks : HashMap Task) : Type 0 where
  pub task : Task
  pub here : get id tasks ≡ some task
  pub holds : holds_resources task.state ≡ true

-- Every address, but perhaps that of one task, belongs to a task that is assigned or runs.
abbrev pub OwnedBut : TaskId → HashMap Task → HashMap Ipv4Addr → Type 0
OwnedBut skip tasks allocated =
    (k : TaskId) (ip : Ipv4Addr) → k ≢ skip → get k allocated ≡ some ip → Owner k tasks

abbrev pub Owned : HashMap Task → HashMap Ipv4Addr → Type 0
Owned tasks allocated = (k : TaskId) (ip : Ipv4Addr) → get k allocated ≡ some ip → Owner k tasks

abbrev pub Tenants : HashMap NodeInfo → HashMap Task → Ipam → Type 0
Tenants nodes tasks ipam = Owned tasks ipam.allocated

abbrev pub Leased : StateInner → Type 0
Leased s = Tenants s.nodes s.tasks s.ipam

Owner-insert :
    (id k : TaskId) (b : Task) (tasks : HashMap Task)
    → k ≢ id
    → Owner k tasks
    → Owner k (insert id b tasks)
Owner-insert id k b tasks ne o = record {
  task = o.task;
  here = get-insert_ne id k b tasks ne ∙ o.here;
  holds = o.holds;
}

-- Whatever becomes of the task, and of its address.
pub OwnedBut-insert :
    (id : TaskId) (b : Task) (tasks : HashMap Task) (allocated : HashMap Ipv4Addr)
    → OwnedBut id tasks allocated
    → OwnedBut id (insert id b tasks) allocated
OwnedBut-insert id b tasks allocated o k ip ne g = Owner-insert id k b tasks ne (o k ip ne g)

pub OwnedBut-lease :
    (id : TaskId) (ip : Ipv4Addr) (tasks : HashMap Task) (allocated : HashMap Ipv4Addr)
    → OwnedBut id tasks allocated
    → OwnedBut id tasks (insert id ip allocated)
OwnedBut-lease id ip tasks allocated o k j ne g =
    o k j ne (sym (get-insert_ne id k ip allocated ne) ∙ g)

-- The task holds nothing any more.
pub Owned-remove :
    (id : TaskId) (tasks : HashMap Task) (allocated : HashMap Ipv4Addr)
    → OwnedBut id tasks allocated
    → Owned tasks (remove id allocated)
Owned-remove id tasks allocated o k ip g =
    o k ip (λ same. ground (arith, get-remove id k allocated, eq_iff id k))
      (ground (arith, get-remove id k allocated))

-- The task is assigned or runs.
pub Owned-insert :
    (id : TaskId) (b : Task) (tasks : HashMap Task) (allocated : HashMap Ipv4Addr)
    → holds_resources b.state ≡ true
    → OwnedBut id tasks allocated
    → Owned (insert id b tasks) allocated
Owned-insert id b tasks allocated holds o k ip g = elim (Bool-cases (id == k)) [
  | inl same ↦ record { task = b; here = get-insert id k b tasks ∙ rw same refl; holds = holds }
  | inr other ↦
      let ne : k ≢ id = λ e. ground (arith, eq_iff id k) in
      Owner-insert id k b tasks ne (o k ip ne g)
]

-- A new task.
pub Owned-new :
    (id : TaskId) (b : Task) (tasks : HashMap Task) (allocated : HashMap Ipv4Addr)
    → get id allocated ≡ none
    → Owned tasks allocated
    → Owned (insert id b tasks) allocated
Owned-new id b tasks allocated free o k ip g =
    Owner-insert id k b tasks (λ e. ground arith) (o k ip g)

-- A task that is in no table holds no address.
pub Owned-absent :
    (id : TaskId) (tasks : HashMap Task) (allocated : HashMap Ipv4Addr)
    → Owned tasks allocated
    → get id tasks ≡ none
    → get id allocated ≡ none
Owned-absent id tasks allocated o h = elim (Option-cases (get id allocated)) [
  | inl free ↦ free
  | inr (ip, held) ↦ let owner = o id ip held in let there = owner.here in absurd (ground arith)
]

-- ---------------------------------------------------------------- the allocator

-- The table behind a request.
abbrev pub granted : Option Ipv4Addr → TaskId → HashMap Ipv4Addr → HashMap Ipv4Addr
granted none id allocated = allocated
granted (some ip) id allocated = insert id ip allocated

allocated-host :
    (p : Ipam) (z : ℕ) (id : TaskId)
    → (allocate_host p z id).1.allocated ≡ granted (allocate_host p z id).0 id p.allocated
unfolding allocate_host
allocated-host p z id = ground arith

allocated-new :
    (r : Option ℕ × Ipam) (id : TaskId)
    → (allocate_new r id).1.allocated ≡ granted (allocate_new r id).0 id r.1.allocated
unfolding allocate_new
allocated-new (none, p) id = refl
allocated-new (some z, p) id = allocated-host p z id

allocated-subnet :
    (p : Ipam) (node_id : NodeId) → (subnet_octet p node_id).1.allocated ≡ p.allocated
unfolding subnet_octet new_subnet
allocated-subnet p node_id = ground arith

pub allocated-allocate :
    (p : Ipam) (node_id : NodeId) (id : TaskId)
    → (allocate p node_id id).1.allocated ≡ granted (allocate p node_id id).0 id p.allocated
unfolding allocate
allocated-allocate p node_id id = elim (Option-cases (get id p.allocated)) [
  | inr (ip, held) ↦ rw (held, allocate) (sym (insert_same id ip p.allocated held))
  | inl unheld ↦
      rw (unheld, allocate)
        (subst
          (λ m.
            (allocate_new (subnet_octet p node_id) id).1.allocated
            ≡ granted (allocate_new (subnet_octet p node_id) id).0 id m)
          (allocated-subnet p node_id) (allocated-new (subnet_octet p node_id) id))
]
