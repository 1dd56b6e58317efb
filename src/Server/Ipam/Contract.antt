-- ===== src/Server/Ipam/Contract.antt =====
-- What `allocate` promises: an address that nobody else holds, on the node's `/24`; the same address
-- when it is asked again; and a failure only when the address space is exhausted.
use bigtop.Common.{
  ℕ, ◌≤◌, ◌<◌, ◌≡◌, ap, true, false, none, some, arith, get, insert, values, get-insert, eq_iff,
  Option-cases, All-values, filter-none, inl, inr, map, [],
}
use bigtop.Core.Ids.{NodeId, TaskId}
use bigtop.Core.Network.{Ipv4Addr, ipv4}
use bigtop.Server.Ipam.Search.{
  contains, first_free, first_free-some, first_free-none, contains-fresh,
}
use bigtop.Server.Ipam.Valid.{Valid}
use bigtop.Server.Ipam.{
  Ipam, in_subnet, new_subnet, subnet_octet, allocate_host, allocate_new, allocate, used_hosts,
}

-- A third octet that no node has is in no address.
no_hosts :
    (p : Ipam) (z : ℕ) → Valid p → contains z (values p.node_subnets) ≡ false → used_hosts p z ≡ []
no_hosts p z v fresh = ap (map (λ (ip : Ipv4Addr). ip.o3)) (
    filter-none (in_subnet p z) (values p.allocated) (
      All-values (λ ip. in_subnet p z ip ≡ false) p.allocated v.ip_keys
        λ t ip g.
          let (n, owner) = v.ip_subnet t ip g in
          ground (arith, contains-fresh z n p.node_subnets fresh)))

-- So the first task on a new `/24` gets its first host.
new_subnet-first :
    (p : Ipam) (node_id : NodeId) (task_id : TaskId) (z : ℕ)
    → Valid p
    → first_free 256 0 (values p.node_subnets) ≡ some z
    → let q : Ipam = record p { node_subnets = insert node_id z p.node_subnets } in
      (allocate_host q z task_id).0 ≡ some (ipv4 p.base0 p.base1 z 2)
unfolding allocate_host first_free
new_subnet-first p node_id task_id z v found =
    rw (no_hosts p z v (first_free-some 256 0 (values p.node_subnets) z found).2, allocate_host)

allocate_host-none :
    (p : Ipam) (z : ℕ) (task_id : TaskId)
    → (allocate_host p z task_id).0 ≡ none
    → ((allocate_host p z task_id).1 ≡ p) × (first_free 253 2 (used_hosts p z) ≡ none)
unfolding allocate_host
allocate_host-none p z task_id h = ground arith

-- The ways in which `allocate` can fail.
pub data Exhausted (p : Ipam) (node_id : NodeId) : Type 0 where
  no_subnet :
      get node_id p.node_subnets ≡ none
      → ((z : ℕ) → z < 256 → contains z (values p.node_subnets) ≡ true)
      → Exhausted p node_id
  no_host :
      (z : ℕ)
      → get node_id p.node_subnets ≡ some z
      → ((h : ℕ) → 2 ≤ h → h ≤ 254 → contains h (used_hosts p z) ≡ true)
      → Exhausted p node_id

-- A failed allocation leaves the allocator as it was, also where it asked for a new `/24` first, and
-- it means that the task holds nothing and that either the node has no `/24` and all 256 are taken,
-- or every host octet from 2 to 254 of its `/24` is in use.
pub allocate-none :
    (p : Ipam) (node_id : NodeId) (task_id : TaskId)
    → Valid p
    → (allocate p node_id task_id).0 ≡ none
    → ((allocate p node_id task_id).1 ≡ p) × (get task_id p.allocated ≡ none) × Exhausted p node_id
unfolding allocate allocate_new subnet_octet new_subnet
allocate-none p node_id task_id v h = elim (Option-cases (get task_id p.allocated)) [
  | inr (ip, held) ↦ absurd (ground arith)
  | inl unheld ↦ elim (Option-cases (get node_id p.node_subnets)) [
    | inr (z, here) ↦
        let (same, full) = allocate_host-none p z task_id (ground arith) in
        (
          ground arith,
          unheld,
          no_host z here
              λ host lo hi. first_free-none 253 2 (used_hosts p z) host full lo (omega arith),
        )
    | inl absent ↦ elim (Option-cases (first_free 256 0 (values p.node_subnets))) [
      | inl full ↦ (
        ground arith,
        unheld,
        no_subnet absent
            λ z hi. first_free-none 256 0 (values p.node_subnets) z full (omega arith) hi,
      )
      | inr (z, found) ↦ absurd (ground (arith, new_subnet-first p node_id task_id z v found))
    ]
  ]
]

-- The parts of a successful search for a host.
allocate_host-some :
    (p : Ipam) (z : ℕ) (task_id : TaskId) (ip : Ipv4Addr)
    → (allocate_host p z task_id).0 ≡ some ip
    → (ip ≡ ipv4 p.base0 p.base1 z ip.o3)
      × ((allocate_host p z task_id).1 ≡ record p { allocated = insert task_id ip p.allocated })
unfolding allocate_host
allocate_host-some p z task_id ip h = ground arith

-- What an allocation that had to search did: `q` is the allocator behind it.
pub record Fresh (p q : Ipam) (node_id : NodeId) (task_id : TaskId) (ip : Ipv4Addr) : Type 0 where
  pub subnet : get node_id q.node_subnets ≡ some ip.o2
  pub base0 : q.base0 ≡ p.base0
  pub base1 : q.base1 ≡ p.base1
  pub address : ip ≡ ipv4 p.base0 p.base1 ip.o2 ip.o3
  pub allocated : q.allocated ≡ insert task_id ip p.allocated

pub allocate-Fresh :
    (p : Ipam) (node_id : NodeId) (task_id : TaskId) (ip : Ipv4Addr)
    → get task_id p.allocated ≡ none
    → (allocate p node_id task_id).0 ≡ some ip
    → Fresh p (allocate p node_id task_id).1 node_id task_id ip
unfolding allocate allocate_new subnet_octet new_subnet
allocate-Fresh p node_id task_id ip unheld h = elim (Option-cases (get node_id p.node_subnets)) [
  | inr (z, here) ↦
      let (address, after) = allocate_host-some p z task_id ip (ground arith) in
      record {
        subnet = ground arith;
        base0 = ground arith;
        base1 = ground arith;
        address = ground arith;
        allocated = ground arith;
      }
  | inl absent ↦ elim (Option-cases (first_free 256 0 (values p.node_subnets))) [
    | inl full ↦ absurd (ground arith)
    | inr (z, found) ↦
        let q : Ipam = record p { node_subnets = insert node_id z p.node_subnets } in
        let (address, after) = allocate_host-some q z task_id ip (ground arith) in
        record {
          subnet =
              ground (arith, get-insert node_id node_id z p.node_subnets, eq_iff node_id node_id);
          base0 = ground arith;
          base1 = ground arith;
          address = ground arith;
          allocated = ground arith;
        }
  ]
]
