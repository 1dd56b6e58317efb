-- ===== src/Core/Mac.antt =====
-- crates/bigtop-core/src/network.rs: MAC addresses derived from ids. The standard library's hasher is
-- the parameter `hash_key`, from a text to a `u64`.
use Prim.Native.String.{◌++◌ as append}
use bigtop.Common.{ℕ, ◌+◌, ◌-◌, ◌/◌, ◌%◌, ◌<◌, ◌≡◌, String, if◌then◌else◌, eqb, arith}
use bigtop.Core.Ids.{TaskId, NodeId}

-- The six octets, most significant first.
pub record MacAddr : Type 0 where
  pub b0 : ℕ
  pub b1 : ℕ
  pub b2 : ℕ
  pub b3 : ℕ
  pub b4 : ℕ
  pub b5 : ℕ

-- `(b & 0xFE) | 0x02`
unfoldable pub local_unicast : ℕ → ℕ
local_unicast b = let even = b - b % 2 in if eqb (even / 2 % 2) 1 then even else even + 2

-- Six of the eight bytes that `u64::to_be_bytes` returns.
unfoldable pub mac_of : ℕ → MacAddr
unfolding local_unicast
mac_of digest = record {
  b0 = local_unicast (digest / 72_057_594_037_927_936 % 256);
  b1 = digest / 281_474_976_710_656 % 256;
  b2 = digest / 1_099_511_627_776 % 256;
  b3 = digest / 4_294_967_296 % 256;
  b4 = digest / 16_777_216 % 256;
  b5 = digest / 65_536 % 256;
}

module _ (hash_key : String → ℕ) where
  unfoldable pub mac_for_str : String → MacAddr
  unfolding mac_of
  mac_for_str key = mac_of (hash_key key)

  unfoldable pub mac_for_task : TaskId → MacAddr
  unfolding mac_for_str
  mac_for_task task_id = mac_for_str task_id

  unfoldable pub vtep_mac_for_node : NodeId → MacAddr
  unfolding mac_for_str
  vtep_mac_for_node node_id = mac_for_str (append "bigtop-vtep-" node_id)

-- Six bytes, of which the first has the bits of a locally administered unicast address.
record LocalUnicast (mac : MacAddr) : Type 0 where
  unicast : mac.b0 % 2 ≡ 0
  local : mac.b0 / 2 % 2 ≡ 1
  byte0 : mac.b0 < 256
  byte1 : mac.b1 < 256
  byte2 : mac.b2 < 256
  byte3 : mac.b3 < 256
  byte4 : mac.b4 < 256
  byte5 : mac.b5 < 256

local_unicast-bits :
    (b : ℕ)
    → b < 256
    → (local_unicast b % 2 ≡ 0) × (local_unicast b / 2 % 2 ≡ 1) × (local_unicast b < 256)
unfolding local_unicast
local_unicast-bits b h = ground arith

mac_of-LocalUnicast : (digest : ℕ) → LocalUnicast (mac_of digest)
unfolding mac_of
mac_of-LocalUnicast digest =
    let (unicast, administered, small) =
      local_unicast-bits (digest / 72_057_594_037_927_936 % 256) (omega arith) in
    record {
      unicast = unicast;
      local = administered;
      byte0 = small;
      byte1 = omega arith;
      byte2 = omega arith;
      byte3 = omega arith;
      byte4 = omega arith;
      byte5 = omega arith;
    }

-- Whatever the hasher returns, the addresses of a task and of a node's tunnel endpoint are six
-- bytes, of which the first marks a locally administered unicast address.
mac_for_task-LocalUnicast :
    (hash_key : String → ℕ) (task_id : TaskId) (node_id : NodeId)
    → LocalUnicast (mac_for_task hash_key task_id)
      × LocalUnicast (vtep_mac_for_node hash_key node_id)
unfolding mac_for_task vtep_mac_for_node
mac_for_task-LocalUnicast hash_key task_id node_id = (
  mac_of-LocalUnicast (hash_key task_id),
  mac_of-LocalUnicast (hash_key (append "bigtop-vtep-" node_id)),
)
