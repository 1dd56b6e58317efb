-- ===== src/Agent/Overlay.antt =====
-- crates/bigtop-agent/src/overlay.rs: the commands of the VXLAN mesh and the reconciliation of the
-- forwarding entries. A hash set is a list without duplicates, in the order in which it is iterated.
pub mod Sets
pub mod Reconcile
use Prim.Native.String.{◌++◌ as append, slice}
use bigtop.Common.{
  ℕ, ◌+◌, ◌/◌, ◌%◌, Bool, true, false, not, ◌&&◌, Option, none, some, List, [], ◌∷◌, ◌++◌, String,
  map, filter, any, eqb, if◌then◌else◌,
}
use bigtop.Common.Decimal.{show}
use bigtop.Core.Ids.{NodeId}
use bigtop.Core.Mac.{MacAddr, vtep_mac_for_node}
use bigtop.Core.Network.{Ipv4Addr}
use bigtop.Core.Wire.{OverlayPeer}
use bigtop.Server.Scheduler.Services.{show_ip}
use bigtop.Agent.Shell.{
  AgentError, Shell, run_command, run_ip_tolerate_exists, is_exists_error, ◌>>◌,
}

abbrev pub overlay_bridge : String
overlay_bridge = "bt-br0"

abbrev pub vxlan_dstport : ℕ
vxlan_dstport = 4789

abbrev hex_digit : ℕ → String
hex_digit n = slice "0123456789abcdef" n (n + 1)

-- `{:02x}`
abbrev hex : ℕ → String
hex n = append (hex_digit (n / 16)) (hex_digit (n % 16))

-- `impl Display for MacAddr`
unfoldable pub show_mac : MacAddr → String
show_mac mac = append (hex mac.b0) (
    append ":" (
      append (hex mac.b1) (
        append ":" (
          append (hex mac.b2) (
            append ":" (
              append (hex mac.b3) (append ":" (append (hex mac.b4) (append ":" (hex mac.b5))))))))))

unfoldable pub vxlan_device_name : ℕ → String
vxlan_device_name vni = append "vxlan" (show vni)

pub record FdbEntry : Type 0 where
  pub mac : MacAddr
  pub dst : Ipv4Addr

unfoldable pub vxlan_create_args : ℕ → List String
unfolding vxlan_device_name
vxlan_create_args vni =
    "link"
    ∷ "add"
    ∷ vxlan_device_name vni
    ∷ "type"
    ∷ "vxlan"
    ∷ "id"
    ∷ show vni
    ∷ "dstport"
    ∷ show vxlan_dstport
    ∷ []

unfoldable pub link_set_mac_args : String → MacAddr → List String
unfolding show_mac
link_set_mac_args dev mac = "link" ∷ "set" ∷ "dev" ∷ dev ∷ "address" ∷ show_mac mac ∷ []

unfoldable pub link_set_up_args : String → List String
link_set_up_args dev = "link" ∷ "set" ∷ "dev" ∷ dev ∷ "up" ∷ []

unfoldable pub bridge_create_args : List String
bridge_create_args = "link" ∷ "add" ∷ "name" ∷ overlay_bridge ∷ "type" ∷ "bridge" ∷ []

unfoldable pub bridge_enslave_args : String → List String
bridge_enslave_args dev = "link" ∷ "set" ∷ "dev" ∷ dev ∷ "master" ∷ overlay_bridge ∷ []

unfoldable pub fdb_append_args : String → FdbEntry → List String
unfolding show_mac
fdb_append_args dev entry =
    "fdb" ∷ "append" ∷ show_mac entry.mac ∷ "dev" ∷ dev ∷ "dst" ∷ show_ip entry.dst ∷ []

unfoldable pub fdb_delete_args : String → FdbEntry → List String
unfolding show_mac
fdb_delete_args dev entry =
    "fdb" ∷ "del" ∷ show_mac entry.mac ∷ "dev" ∷ dev ∷ "dst" ∷ show_ip entry.dst ∷ []

-- Equality of two entries, as it is derived.
unfoldable pub same : FdbEntry → FdbEntry → Bool
same a b =
    eqb a.mac.b0 b.mac.b0
    && eqb a.mac.b1 b.mac.b1
    && eqb a.mac.b2 b.mac.b2
    && eqb a.mac.b3 b.mac.b3
    && eqb a.mac.b4 b.mac.b4
    && eqb a.mac.b5 b.mac.b5
    && eqb a.dst.o0 b.dst.o0
    && eqb a.dst.o1 b.dst.o1
    && eqb a.dst.o2 b.dst.o2
    && eqb a.dst.o3 b.dst.o3

-- `HashSet::contains`, `insert`, `remove` and `difference`, and `collect` into a set.
abbrev pub has : FdbEntry → List FdbEntry → Bool
has entry set = any (λ e. same entry e) set

unfoldable pub add : FdbEntry → List FdbEntry → List FdbEntry
add entry set = if has entry set then set else set ++ entry ∷ []

unfoldable pub drop_entry : FdbEntry → List FdbEntry → List FdbEntry
drop_entry entry set = filter (λ e. not (same entry e)) set

unfoldable pub difference : List FdbEntry → List FdbEntry → List FdbEntry
difference a b = filter (λ e. not (has e b)) a

unfoldable pub to_set : List FdbEntry → List FdbEntry
unfolding add
to_set [] = []
to_set (e ∷ es) = add e (to_set es)

unfoldable pub diff_fdb : List FdbEntry → List FdbEntry → List FdbEntry × List FdbEntry
unfolding difference
diff_fdb applied want = (difference want applied, difference applied want)

pub record OverlayManager : Type 0 where
  pub vni : ℕ
  pub underlay_ip : Ipv4Addr
  pub node_id : NodeId
  pub applied : List FdbEntry

unfoldable pub new : ℕ → Ipv4Addr → NodeId → OverlayManager
new vni underlay_ip node_id = record {
  vni = vni;
  underlay_ip = underlay_ip;
  node_id = node_id;
  applied = [];
}

unfoldable pub enslave_to_bridge : String → Shell → Option AgentError × Shell
unfolding bridge_enslave_args run_command
enslave_to_bridge dev = run_command "ip" (bridge_enslave_args dev)

-- The first loop of `reconcile`: the error that ends it, the applied entries, and the shell.
unfoldable pub append_entries :
    String → List FdbEntry → List FdbEntry → Shell → Option AgentError × List FdbEntry × Shell
unfolding fdb_append_args run_command is_exists_error add
append_entries dev [] applied shell = (none, applied, shell)
append_entries dev (entry ∷ entries) applied shell =
    let r = run_command "bridge" (fdb_append_args dev entry) shell in
    elim r.0 [
      | none ↦ append_entries dev entries (add entry applied) r.1
      | some e ↦ elim (is_exists_error e) [
        | true ↦ append_entries dev entries (add entry applied) r.1
        | false ↦ (some e, applied, r.1)
      ]
    ]

-- The second loop: a failure is only printed.
unfoldable pub delete_entries :
    String → List FdbEntry → List FdbEntry → Shell → List FdbEntry × Shell
unfolding fdb_delete_args run_command drop_entry
delete_entries dev [] applied shell = (applied, shell)
delete_entries dev (entry ∷ entries) applied shell =
    delete_entries dev entries (drop_entry entry applied)
      (run_command "bridge" (fdb_delete_args dev entry) shell).1

-- `reconcile` from the first loop on, whose outcome is the last argument.
unfoldable pub settle :
    OverlayManager
    → String
    → List FdbEntry
    → Option AgentError × List FdbEntry × Shell
    → Option AgentError × OverlayManager × Shell
unfolding delete_entries
settle manager dev to_delete (some e, applied, shell) =
    (some e, record manager { applied = applied }, shell)
settle manager dev to_delete (none, applied, shell) =
    let deleted = delete_entries dev to_delete applied shell in
    (none, record manager { applied = deleted.0 }, deleted.1)

module _ (hash_key : String → ℕ) where
  unfoldable pub fdb_entries_for_peers : List OverlayPeer → List FdbEntry
  unfolding vtep_mac_for_node
  fdb_entries_for_peers peers =
      map (λ peer. record { mac = vtep_mac_for_node hash_key peer.node_id; dst = peer.underlay_ip })
        peers

  unfoldable pub setup : OverlayManager → Shell → Option AgentError × Shell
  unfolding vxlan_create_args link_set_mac_args link_set_up_args bridge_create_args
      enslave_to_bridge run_ip_tolerate_exists run_command vtep_mac_for_node
  setup manager =
      let dev = vxlan_device_name manager.vni in
      do
        run_ip_tolerate_exists (vxlan_create_args manager.vni)
        run_command "ip" (link_set_mac_args dev (vtep_mac_for_node hash_key manager.node_id))
        run_command "ip" (link_set_up_args dev)
        run_ip_tolerate_exists bridge_create_args
        run_command "ip" (link_set_up_args overlay_bridge)
        enslave_to_bridge dev

  unfoldable pub reconcile :
      List OverlayPeer → OverlayManager → Shell → Option AgentError × OverlayManager × Shell
  unfolding fdb_entries_for_peers to_set diff_fdb append_entries settle vxlan_device_name
  reconcile peers manager shell =
      let (to_add, to_delete) = diff_fdb manager.applied (to_set (fdb_entries_for_peers peers)) in
      let dev = vxlan_device_name manager.vni in
      settle manager dev to_delete (append_entries dev to_add manager.applied shell)
