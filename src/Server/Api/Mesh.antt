-- ===== src/Server/Api/Mesh.antt =====
-- api.rs and overlay.rs together: an agent that reconciles with the server's list of peers.
use bigtop.Common.{
  ℕ, ◌≡◌, sym, not, ◌&&◌, ◌++◌, map, ◌∙◌, ap, true, false, none, some, List, [], ◌∷◌, String, get,
  values, arith, All, Bool-cases, inl, inr, ◌==◌,
}
use bigtop.Common.Sorted.{In}
use bigtop.Core.Ids.{NodeId}
use bigtop.Core.Mac.{vtep_mac_for_node}
use bigtop.Core.Network.{Ipv4Addr}
use bigtop.Core.Types.{NodeInfo, is_alive}
use bigtop.Core.Wire.{OverlayPeer}
use bigtop.Server.State.{StateInner}
use bigtop.Server.Api.Reads.{overlay_peers}
use bigtop.Server.Api.Lists.{overlay_peers-Mesh}
use bigtop.Agent.Shell.{Shell}
use bigtop.Agent.Overlay.{
  FdbEntry, OverlayManager, same, has, fdb_entries_for_peers, reconcile, difference, to_set,
  diff_fdb, fdb_append_args, fdb_delete_args, vxlan_device_name,
}
use bigtop.Agent.Overlay.Sets.{same-eq, same_refl, has-difference, has-to_set}
use bigtop.Agent.Overlay.Reconcile.{reconcile-Reconciled}

module _ (hash_key : String → ℕ) where
  -- The forwarding entry towards a node.
  abbrev pub entry_to : NodeId → Ipv4Addr → FdbEntry
  entry_to node_id ip = record { mac = vtep_mac_for_node hash_key node_id; dst = ip }

  has-entries :
      (p : OverlayPeer) (peers : List OverlayPeer)
      → In p peers
      → has (entry_to p.node_id p.underlay_ip) (fdb_entries_for_peers hash_key peers) ≡ true
  unfolding fdb_entries_for_peers
  has-entries p _ (In.first {xs}) = ground (arith, same_refl (entry_to p.node_id p.underlay_ip))
  has-entries p _ (In.later {y} {xs} i) = ground (arith, has-entries p xs i)

  peer-entries :
      (P : OverlayPeer → Type 0) (e : FdbEntry) (peers : List OverlayPeer)
      → All P peers
      → has e (fdb_entries_for_peers hash_key peers) ≡ true
      → (p : OverlayPeer) × P p × (e ≡ entry_to p.node_id p.underlay_ip)
  unfolding fdb_entries_for_peers
  peer-entries P e [] h found = absurd (ground arith)
  peer-entries P e (p ∷ peers) h found =
      elim (Bool-cases (same e (entry_to p.node_id p.underlay_ip))) [
        | inl here ↦ (p, h.0, same-eq e (entry_to p.node_id p.underlay_ip) here)
        | inr there ↦ peer-entries P e peers h.1 (ground arith)
      ]

  -- The entries that an agent keeps as applied are those of the other live nodes with an underlay
  -- address.
  pub record Meshed (s : StateInner) (node_id : NodeId) (now : ℕ) (applied : List FdbEntry)
      : Type 0 where
    pub complete :
        (k : NodeId) (node : NodeInfo) (ip : Ipv4Addr)
        → get k s.nodes ≡ some node
        → is_alive node now ≡ true
        → (node.id == node_id) ≡ false
        → node.underlay_ip ≡ some ip
        → has (entry_to node.id ip) applied ≡ true
    pub sound :
        (e : FdbEntry)
        → has e applied ≡ true
        → (node : NodeInfo) × In node (values s.nodes)
          × (is_alive node now ≡ true)
          × ((node.id == node_id) ≡ false)
          × ((ip : Ipv4Addr) × (node.underlay_ip ≡ some ip) × (e ≡ entry_to node.id ip))

  -- The commands of a reconciliation: an append for each entry that is kept as applied behind it and
  -- was not before, then a deletion for each that was kept as applied and is not any more.
  pub record Issued (before after : OverlayManager) (s u : Shell) : Type 0 where
    pub added : List FdbEntry
    pub dropped : List FdbEntry
    pub issued :
        u.issued
        ≡ s.issued
          ++ map (λ e. ("bridge", fdb_append_args (vxlan_device_name before.vni) e)) added
          ++ map (λ e. ("bridge", fdb_delete_args (vxlan_device_name before.vni) e)) dropped
    pub missing : (e : FdbEntry) → has e added ≡ (has e after.applied && not (has e before.applied))
    pub surplus :
        (e : FdbEntry) → has e dropped ≡ (has e before.applied && not (has e after.applied))

  -- Where an agent's reconciliation with the server's list of peers succeeds, the entries that it
  -- keeps as applied behind it are exactly those of the other nodes that are alive and have an
  -- underlay address: the entry of each of them, and of no other node. The commands that it issued
  -- are an append for each entry that it had not kept as applied, then a deletion for each that it
  -- had and that is not asked for any more. What the kernel forwards to can be more: a deletion that
  -- fails is forgotten, and so is what an agent had applied before it was started again.
  pub reconcile-overlay_peers :
      (s : StateInner) (node_id : NodeId) (now : ℕ) (manager : OverlayManager) (shell : Shell)
      → (reconcile hash_key (overlay_peers s node_id now) manager shell).0 ≡ none
      → Meshed s node_id now
          (reconcile hash_key (overlay_peers s node_id now) manager shell).1.applied
        × Issued manager
            (reconcile hash_key (overlay_peers s node_id now) manager shell).1
            shell
            (reconcile hash_key (overlay_peers s node_id now) manager shell).2
  unfolding diff_fdb
  reconcile-overlay_peers s node_id now manager shell h =
      let peers = overlay_peers s node_id now in
      let mesh = overlay_peers-Mesh s node_id now in
      let want = fdb_entries_for_peers hash_key peers in
      let r = reconcile-Reconciled hash_key peers manager shell h in
      (
        record {
          complete = λ k node ip g alive different at.
              r.members (entry_to node.id ip)
              ∙ has-entries (record { node_id = node.id; underlay_ip = ip }) peers
                  (mesh.complete k node ip g alive different at);
          sound = λ e found.
              let q = peer-entries _ e peers mesh.sound (sym (r.members e) ∙ found) in
              let (p, at, same) = q in
              (
                at.0,
                at.1,
                at.2,
                at.3,
                (p.underlay_ip, at.5, same ∙ ap (λ n. entry_to n p.underlay_ip) at.4),
              );
        },
        record {
          added = difference (to_set want) manager.applied;
          dropped = difference manager.applied (to_set want);
          issued = r.issued;
          missing = λ e. ground (
            arith,
            has-difference e (to_set want) manager.applied,
            has-to_set e want,
            r.members e,
          );
          surplus = λ e. ground (
            arith,
            has-difference e manager.applied (to_set want),
            has-to_set e want,
            r.members e,
          );
        },
      )
