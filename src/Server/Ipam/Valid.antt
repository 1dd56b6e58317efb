-- ===== src/Server/Ipam/Valid.antt =====
-- The invariant of the allocator: every node has its own third octet, every task its own address.
use bigtop.Common.{
  UniqueKeys, UniqueKeys-insert, UniqueKeys-remove, ℕ, ◌≤◌, ◌<◌, ◌≡◌, ◌≢◌, refl, Bool, true, false,
  Option, none, some, arith, get, insert, remove, values, get-insert, get-remove, any-values,
  eq_iff, Option-cases, Bool-cases, any-map-filter, any, eqb, ◌&&◌, inl, inr, String, HashMap, ◌==◌,
}
use bigtop.Core.Ids.{NodeId, TaskId}
use bigtop.Core.Network.{Ipv4Addr, ipv4}
use bigtop.Server.Ipam.Search.{contains, first_free, first_free-some, contains-fresh}
use bigtop.Server.Ipam.{
  Ipam, default, in_subnet, new_subnet, subnet_octet, allocate_host, allocate_new, allocate,
  release, used_hosts,
}

-- Different keys have different values.
abbrev pub IsInjective {ℓ} : {V : Type ℓ} → HashMap V → Type ℓ
IsInjective {V} m = (j k : String) (v : V) → get j m ≡ some v → get k m ≡ some v → j ≡ k

IsInjective-insert {ℓ} :
    {V : Type ℓ} (k : String) (v : V) (m : HashMap V)
    → IsInjective m
    → ((j : String) → get j m ≢ some v)
    → IsInjective (insert k v m)
IsInjective-insert k v m inj fresh i j w gi gj = ground (
  arith,
  get-insert k i v m,
  get-insert k j v m,
  eq_iff k i,
  eq_iff k j,
  inj i j w,
  fresh i,
  fresh j,
)

IsInjective-remove {ℓ} :
    {V : Type ℓ} (k : String) (m : HashMap V) → IsInjective m → IsInjective (remove k m)
IsInjective-remove k m inj i j w gi gj =
    ground (arith, get-remove k i m, get-remove k j m, inj i j w)

-- An address of the node's `/24`, with a host octet that may be handed out.
pub record InRange (p : Ipam) (ip : Ipv4Addr) : Type 0 where
  pub base0 : ip.o0 ≡ p.base0
  pub base1 : ip.o1 ≡ p.base1
  pub lower : 2 ≤ ip.o3
  pub upper : ip.o3 ≤ 254

pub record Valid (p : Ipam) : Type 0 where
  pub subnet_keys : UniqueKeys p.node_subnets
  pub ip_keys : UniqueKeys p.allocated
  pub subnet_range : (n : NodeId) (z : ℕ) → get n p.node_subnets ≡ some z → z < 256
  pub subnet_unique : IsInjective p.node_subnets
  pub ip_range : (t : TaskId) (ip : Ipv4Addr) → get t p.allocated ≡ some ip → InRange p ip
  pub ip_subnet :
      (t : TaskId) (ip : Ipv4Addr)
      → get t p.allocated ≡ some ip
      → (n : NodeId) × (get n p.node_subnets ≡ some ip.o2)
  pub ip_unique : IsInjective p.allocated

-- `n` has a third octet.
abbrev HasSubnet : Ipam → ℕ → Type 0
HasSubnet p z = (n : NodeId) × (get n p.node_subnets ≡ some z)

HasSubnet-insert :
    (p : Ipam) (node_id : NodeId) (z y : ℕ)
    → get node_id p.node_subnets ≡ none
    → HasSubnet p y
    → (n : NodeId) × (get n (insert node_id z p.node_subnets) ≡ some y)
HasSubnet-insert p node_id z y absent (n, g) =
    (n, ground (arith, get-insert node_id n z p.node_subnets, eq_iff node_id n))

module _ (p : Ipam) (node_id : NodeId) (z : ℕ) (v : Valid p) where
  insert_subnet-Valid :
      get node_id p.node_subnets ≡ none
      → first_free 256 0 (values p.node_subnets) ≡ some z
      → Valid (record p { node_subnets = insert node_id z p.node_subnets })
  insert_subnet-Valid absent found = record {
    subnet_keys = UniqueKeys-insert node_id z p.node_subnets v.subnet_keys;
    ip_keys = v.ip_keys;
    subnet_range = λ n y g. ground (
      arith,
      get-insert node_id n z p.node_subnets,
      v.subnet_range n y,
      first_free-some 256 0 (values p.node_subnets) z found,
    );
    subnet_unique =
        IsInjective-insert node_id z p.node_subnets v.subnet_unique
          λ j. contains-fresh z j p.node_subnets (first_free-some 256 0 _ z found).2;
    ip_range = λ t ip g.
        let r = v.ip_range t ip g in
        record { base0 = r.base0; base1 = r.base1; lower = r.lower; upper = r.upper };
    ip_subnet = λ t ip g. HasSubnet-insert p node_id z ip.o2 absent (v.ip_subnet t ip g);
    ip_unique = v.ip_unique;
  }

subnet_octet-Valid : (p : Ipam) (node_id : NodeId) → Valid p → Valid (subnet_octet p node_id).1
unfolding subnet_octet
subnet_octet-Valid p node_id v = elim (Option-cases (get node_id p.node_subnets)) [
  | inr (z, here) ↦ rw (here, subnet_octet) v
  | inl absent ↦ elim (Option-cases (first_free 256 0 (values p.node_subnets))) [
    | inl full ↦ rw (absent, subnet_octet, full, new_subnet) v
    | inr (z, found) ↦
        rw (absent, subnet_octet, found, new_subnet)
          (insert_subnet-Valid p node_id z v absent found)
  ]
]

module _ (p : Ipam) (z : ℕ) (task_id : TaskId) (host : ℕ) where
  abbrev new_ip : Ipv4Addr
  new_ip = ipv4 p.base0 p.base1 z host

  new_ip-fresh :
      (t : TaskId) → contains host (used_hosts p z) ≡ false → get t p.allocated ≢ some new_ip
  new_ip-fresh t free g =
      let test : Ipv4Addr → Bool = λ ip. in_subnet p z ip && eqb ip.o3 host in
      let used : any test (values p.allocated) ≡ true =
        any-values test t p.allocated new_ip g (ground arith) in
      ground (
        arith,
        any-map-filter (λ y. eqb y host) (λ (ip : Ipv4Addr). ip.o3) (in_subnet p z)
            (values p.allocated),
      )

  insert_ip-Valid :
      Valid p
      → HasSubnet p z
      → first_free 253 2 (used_hosts p z) ≡ some host
      → Valid (record p { allocated = insert task_id new_ip p.allocated })
  insert_ip-Valid v sub found =
      let (lower, upper, free) = first_free-some 253 2 (used_hosts p z) host found in
      record {
        subnet_keys = v.subnet_keys;
        ip_keys = UniqueKeys-insert task_id new_ip p.allocated v.ip_keys;
        subnet_range = v.subnet_range;
        subnet_unique = v.subnet_unique;
        ip_range = λ t ip g. elim (Bool-cases (task_id == t)) [
          | inl here ↦
              let e : ip ≡ new_ip = ground (arith, get-insert task_id t new_ip p.allocated) in
              record {
                base0 = ground arith;
                base1 = ground arith;
                lower = ground arith;
                upper = ground arith;
              }
          | inr other ↦
              let r = v.ip_range t ip (ground (arith, get-insert task_id t new_ip p.allocated)) in
              record { base0 = r.base0; base1 = r.base1; lower = r.lower; upper = r.upper }
        ];
        ip_subnet = λ t ip g. elim (Bool-cases (task_id == t)) [
          | inl here ↦ (sub.0, ground (arith, sub.1, get-insert task_id t new_ip p.allocated))
          | inr other ↦ v.ip_subnet t ip (ground (arith, get-insert task_id t new_ip p.allocated))
        ];
        ip_unique =
            IsInjective-insert task_id new_ip p.allocated v.ip_unique λ t. new_ip-fresh t free;
      }

allocate_host-Valid :
    (p : Ipam) (z : ℕ) (task_id : TaskId)
    → Valid p
    → HasSubnet p z
    → Valid (allocate_host p z task_id).1
unfolding allocate_host
allocate_host-Valid p z task_id v sub = elim (Option-cases (first_free 253 2 (used_hosts p z))) [
  | inl full ↦ rw (full, allocate_host) v
  | inr (host, found) ↦ rw (found, allocate_host) (insert_ip-Valid p z task_id host v sub found)
]

-- The octet that `subnet_octet` returns is the node's from then on.
subnet_octet-get :
    (p : Ipam) (node_id : NodeId) (z : ℕ)
    → (subnet_octet p node_id).0 ≡ some z
    → get node_id (subnet_octet p node_id).1.node_subnets ≡ some z
unfolding subnet_octet
subnet_octet-get p node_id z h =
    ground (arith, get-insert node_id node_id z p.node_subnets, eq_iff node_id node_id)

allocate_new-Valid :
    (r : Option ℕ × Ipam) (task_id : TaskId)
    → Valid r.1
    → ((z : ℕ) → r.0 ≡ some z → HasSubnet r.1 z)
    → Valid (allocate_new r task_id).1
unfolding allocate_new
allocate_new-Valid (none, p) task_id v sub = v
allocate_new-Valid (some z, p) task_id v sub = allocate_host-Valid p z task_id v (sub z refl)

-- A request keeps the allocator valid, whether it succeeds or not: each node has its own third
-- octet, below 256, and each task its own address, with the base of the network, the third octet of
-- some node and a host octet from 2 to 254.
pub allocate-Valid :
    (p : Ipam) (node_id : NodeId) (task_id : TaskId)
    → Valid p
    → Valid (allocate p node_id task_id).1
unfolding allocate
allocate-Valid p node_id task_id v = elim (Option-cases (get task_id p.allocated)) [
  | inr (ip, held) ↦ rw (held, allocate) v
  | inl unheld ↦
      rw (unheld, allocate)
        (allocate_new-Valid (subnet_octet p node_id) task_id (subnet_octet-Valid p node_id v)
          λ z found. (node_id, subnet_octet-get p node_id z found))
]

-- A release keeps the allocator valid.
pub release-Valid : (p : Ipam) (task_id : TaskId) → Valid p → Valid (release p task_id).1
unfolding release
release-Valid p task_id v = record {
  subnet_keys = v.subnet_keys;
  ip_keys = UniqueKeys-remove task_id p.allocated v.ip_keys;
  subnet_range = v.subnet_range;
  subnet_unique = v.subnet_unique;
  ip_range = λ t ip g.
      let r = v.ip_range t ip (ground (arith, get-remove task_id t p.allocated)) in
      record { base0 = r.base0; base1 = r.base1; lower = r.lower; upper = r.upper };
  ip_subnet = λ t ip g. v.ip_subnet t ip (ground (arith, get-remove task_id t p.allocated));
  ip_unique = IsInjective-remove task_id p.allocated v.ip_unique;
}

pub default-Valid : Valid default
unfolding default get
default-Valid = record {
  subnet_keys = tt;
  ip_keys = tt;
  subnet_range = λ n z g. absurd (ground arith);
  subnet_unique = λ i j z g. absurd (ground arith);
  ip_range = λ t ip g. absurd (ground arith);
  ip_subnet = λ t ip g. absurd (ground arith);
  ip_unique = λ i j ip g. absurd (ground arith);
}
