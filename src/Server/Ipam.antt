-- ===== src/Server/Ipam.antt =====
-- crates/bigtop-server/src/ipam.rs: addresses of the task network. An operation that takes `&mut self`
-- returns the new allocator behind its result.
pub mod Search
pub mod Valid
pub mod Contract
pub mod Leases
use bigtop.Common.{
  ℕ, ◌-◌, ◌*◌, ◌+◌, Bool, ◌&&◌, ◌||◌, not, Option, none, some, List, [], map, HashMap, get, insert,
  remove, values, is_some, filter, length, eqb, if◌then◌else◌,
}
use mathlib.Core.Option
use bigtop.Core.Ids.{NodeId, TaskId}
use bigtop.Core.Network.{Ipv4Addr, ipv4}
use Search.{first_free}

abbrev pub first_host : ℕ
first_host = 2

abbrev pub last_host : ℕ
last_host = 254

-- `IpamError`
pub data IpamError : Type 0 where
  not_base_network : Ipv4Addr → IpamError

-- `base` is the array of the first two octets.
pub record Ipam : Type 0 where
  pub base0 : ℕ
  pub base1 : ℕ
  pub node_subnets : HashMap ℕ
  pub allocated : HashMap Ipv4Addr

pub data NewResult : Type 0 where
  ok : Ipam → NewResult
  err : IpamError → NewResult

-- `Ipam::new`
unfoldable pub new : Ipv4Addr → NewResult
new network =
    if not (eqb network.o2 0) || not (eqb network.o3 0)
    then err (not_base_network network)
    else ok (record { base0 = network.o0; base1 = network.o1; node_subnets = []; allocated = [] })

-- `Ipam::default`
unfoldable pub default : Ipam
default = record { base0 = 172; base1 = 28; node_subnets = []; allocated = [] }

-- The search in `subnet_octet`, for a node that has no `/24` yet.
unfoldable pub new_subnet : Ipam → NodeId → Option ℕ × Ipam
new_subnet self node_id = elim (first_free 256 0 (values self.node_subnets)) [
  | none ↦ (none, self)
  | some z ↦ (some z, record self { node_subnets = insert node_id z self.node_subnets })
]

-- `Ipam::subnet_octet`
unfoldable pub subnet_octet : Ipam → NodeId → Option ℕ × Ipam
unfolding new_subnet
subnet_octet self node_id = elim (get node_id self.node_subnets) [
  | some z ↦ (some z, self)
  | none ↦ new_subnet self node_id
]

-- The addresses that lie in one `/24`.
abbrev pub in_subnet : Ipam → ℕ → Ipv4Addr → Bool
in_subnet self subnet ip = eqb ip.o0 self.base0 && eqb ip.o1 self.base1 && eqb ip.o2 subnet

-- The host octets in use in one `/24`.
abbrev pub used_hosts : Ipam → ℕ → List ℕ
used_hosts self subnet = map (λ ip. ip.o3) (filter (in_subnet self subnet) (values self.allocated))

-- The search for a host in `allocate`, once the third octet is known.
unfoldable pub allocate_host : Ipam → ℕ → TaskId → Option Ipv4Addr × Ipam
allocate_host self subnet task_id =
    elim (first_free (last_host - first_host + 1) first_host (used_hosts self subnet)) [
      | none ↦ (none, self)
      | some host ↦ (
        some (ipv4 self.base0 self.base1 subnet host),
        record self {
          allocated = insert task_id (ipv4 self.base0 self.base1 subnet host) self.allocated;
        },
      )
    ]

-- `allocate` for a task that holds no address.
unfoldable pub allocate_new : Option ℕ × Ipam → TaskId → Option Ipv4Addr × Ipam
unfolding allocate_host
allocate_new (none, self) task_id = (none, self)
allocate_new (some subnet, self) task_id = allocate_host self subnet task_id

-- `Ipam::allocate`
unfoldable pub allocate : Ipam → NodeId → TaskId → Option Ipv4Addr × Ipam
unfolding subnet_octet allocate_new
allocate self node_id task_id = elim (get task_id self.allocated) [
  | some ip ↦ (some ip, self)
  | none ↦ allocate_new (subnet_octet self node_id) task_id
]

-- `Ipam::release`
unfoldable pub release : Ipam → TaskId → Bool × Ipam
release self task_id = (
  is_some (get task_id self.allocated),
  record self { allocated = remove task_id self.allocated },
)

-- `Ipam::gateway_for`
unfoldable pub gateway_for : Ipam → NodeId → Option Ipv4Addr
gateway_for self node_id =
    Option.map (λ z. ipv4 self.base0 self.base1 z 1) (get node_id self.node_subnets)

-- `Ipam::subnet_for`
unfoldable pub subnet_for : Ipam → NodeId → Option Ipv4Addr
subnet_for self node_id =
    Option.map (λ z. ipv4 self.base0 self.base1 z 0) (get node_id self.node_subnets)

-- `Ipam::netmask`
abbrev pub netmask : Ipv4Addr
netmask = ipv4 255 255 255 0

-- `Ipam::assigned`
unfoldable pub assigned : Ipam → TaskId → Option Ipv4Addr
assigned self task_id = get task_id self.allocated

-- `Ipam::allocated_count`
unfoldable pub allocated_count : Ipam → ℕ
allocated_count self = length self.allocated

-- `Ipam::capacity`
unfoldable pub capacity : ℕ
capacity = 256 * (last_host - first_host + 1)
