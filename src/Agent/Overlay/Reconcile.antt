-- ===== src/Agent/Overlay/Reconcile.antt =====
-- overlay.rs: what `reconcile` achieves, and what it does not try again.
use bigtop.Common.{
  ℕ, ◌≡◌, refl, sym, ◌∙◌, not, ◌&&◌, ◌||◌, Option, none, some, List, [], ◌∷◌, ◌++◌, String, map,
  arith, Option-cases, Bool-cases, inl, inr, append_assoc, append-nil,
}
use bigtop.Core.Wire.{OverlayPeer}
use bigtop.Agent.Shell.{AgentError, Shell, run_command, is_exists_error}
use bigtop.Agent.Overlay.{
  FdbEntry, OverlayManager, same, has, add, drop_entry, difference, to_set, diff_fdb,
  fdb_append_args, fdb_delete_args, append_entries, delete_entries, settle, fdb_entries_for_peers,
  reconcile, vxlan_device_name,
}
use bigtop.Agent.Overlay.Sets.{
  has-add, has-drop_entry, has-difference, has-to_set, difference-empty,
}

pub issued-run_command :
    (bin : String) (args : List String) (shell : Shell)
    → (run_command bin args shell).1.issued ≡ shell.issued ++ (bin, args) ∷ []
unfolding run_command
issued-run_command bin args shell = ground arith

-- What the first loop did, if it came to its end.
record Appended (dev : String) (entries applied : List FdbEntry) (shell : Shell)
    (r : Option AgentError × List FdbEntry × Shell) : Type 0 where
  members : (e : FdbEntry) → has e r.1 ≡ (has e applied || has e entries)
  issued : r.2.issued ≡ shell.issued ++ map (λ e. ("bridge", fdb_append_args dev e)) entries

Appended-cons :
    (dev : String) (entry : FdbEntry) (entries applied : List FdbEntry) (shell : Shell)
    (r : Option AgentError × List FdbEntry × Shell)
    → Appended dev entries
        (add entry applied)
        (run_command "bridge" (fdb_append_args dev entry) shell).1
        r
    → Appended dev (entry ∷ entries) applied shell r
Appended-cons dev entry entries applied shell r a = record {
  members = λ e. ground (arith, a.members e, has-add e entry applied);
  issued =
      a.issued
      ∙ rw (issued-run_command "bridge" (fdb_append_args dev entry) shell)
          (append_assoc shell.issued (("bridge", fdb_append_args dev entry) ∷ []) _);
}

append_entries-Appended :
    (dev : String) (entries applied : List FdbEntry) (shell : Shell)
    → (append_entries dev entries applied shell).0 ≡ none
    → Appended dev entries applied shell (append_entries dev entries applied shell)
unfolding append_entries
append_entries-Appended dev [] applied shell h = record {
  members = λ e. ground arith;
  issued = sym (append-nil shell.issued);
}
append_entries-Appended dev (entry ∷ entries) applied shell h =
    elim (Option-cases (run_command "bridge" (fdb_append_args dev entry) shell).0) [
      | inl fine ↦
          rw (fine, append_entries)
            (Appended-cons dev entry entries applied shell _ (
              append_entries-Appended dev entries (add entry applied) _
                (rw (fine, append_entries) at h)))
      | inr (error, bad) ↦ elim (Bool-cases (is_exists_error error)) [
        | inl exists ↦
            rw (bad, exists, append_entries)
              (Appended-cons dev entry entries applied shell _ (
                append_entries-Appended dev entries (add entry applied) _
                  (rw (bad, exists, append_entries) at h)))
        | inr other ↦ absurd (ground arith)
      ]
    ]

-- What the second loop did.
record Deleted (dev : String) (entries applied : List FdbEntry) (shell : Shell)
    (r : List FdbEntry × Shell) : Type 0 where
  members : (e : FdbEntry) → has e r.0 ≡ (has e applied && not (has e entries))
  issued : r.1.issued ≡ shell.issued ++ map (λ e. ("bridge", fdb_delete_args dev e)) entries

same-sym : (a b : FdbEntry) → same a b ≡ same b a
unfolding same
same-sym a b = ground arith

delete_entries-Deleted :
    (dev : String) (entries applied : List FdbEntry) (shell : Shell)
    → Deleted dev entries applied shell (delete_entries dev entries applied shell)
unfolding delete_entries
delete_entries-Deleted dev [] applied shell = record {
  members = λ e. ground arith;
  issued = sym (append-nil shell.issued);
}
delete_entries-Deleted dev (entry ∷ entries) applied shell =
    let d =
      delete_entries-Deleted dev entries (drop_entry entry applied)
        (run_command "bridge" (fdb_delete_args dev entry) shell).1 in
    record {
      members = λ e. ground (arith, d.members e, has-drop_entry e entry applied, same-sym entry e);
      issued =
          d.issued
          ∙ rw (issued-run_command "bridge" (fdb_delete_args dev entry) shell)
              (append_assoc shell.issued (("bridge", fdb_delete_args dev entry) ∷ []) _);
    }

-- What an overlay, a peer list and the outcome have in common after `reconcile`.
pub record Reconciled (hash_key : String → ℕ) (peers : List OverlayPeer) (manager : OverlayManager)
    (shell : Shell) (r : Option AgentError × OverlayManager × Shell) : Type 0 where
  pub members : (e : FdbEntry) → has e r.1.applied ≡ has e (fdb_entries_for_peers hash_key peers)
  pub issued :
      r.2.issued
      ≡ shell.issued
        ++ map
            (λ e. ("bridge", fdb_append_args (vxlan_device_name manager.vni) e))
            (diff_fdb manager.applied (to_set (fdb_entries_for_peers hash_key peers))).0
        ++ map
            (λ e. ("bridge", fdb_delete_args (vxlan_device_name manager.vni) e))
            (diff_fdb manager.applied (to_set (fdb_entries_for_peers hash_key peers))).1
  pub vni : r.1.vni ≡ manager.vni

settle-Reconciled :
    (hash_key : String → ℕ) (peers : List OverlayPeer) (manager : OverlayManager) (shell : Shell)
    (added : Option AgentError × List FdbEntry × Shell)
    → Appended
        (vxlan_device_name manager.vni)
        (difference (to_set (fdb_entries_for_peers hash_key peers)) manager.applied)
        manager.applied
        shell
        added
    → (settle manager
        (vxlan_device_name manager.vni)
        (difference manager.applied (to_set (fdb_entries_for_peers hash_key peers)))
        added).0
      ≡ none
    → Reconciled hash_key peers manager shell (
        settle manager
          (vxlan_device_name manager.vni)
          (difference manager.applied (to_set (fdb_entries_for_peers hash_key peers)))
          added)
unfolding settle diff_fdb
settle-Reconciled hash_key peers manager shell (some e, applied, after) a h = absurd (ground arith)
settle-Reconciled hash_key peers manager shell (none, applied, after) a h =
    let want = to_set (fdb_entries_for_peers hash_key peers) in
    let d =
      delete_entries-Deleted (vxlan_device_name manager.vni) (difference manager.applied want)
        applied after in
    record {
      members = λ e. ground (
        arith,
        d.members e,
        a.members e,
        has-difference e want manager.applied,
        has-difference e manager.applied want,
        has-to_set e (fdb_entries_for_peers hash_key peers),
      );
      issued = d.issued ∙ rw a.issued refl;
      vni = refl;
    }

-- Only an end of the first loop without an error lets `reconcile` succeed.
settle-none :
    (manager : OverlayManager) (dev : String) (to_delete : List FdbEntry)
    (added : Option AgentError × List FdbEntry × Shell)
    → (settle manager dev to_delete added).0 ≡ none
    → added.0 ≡ none
unfolding settle
settle-none manager dev to_delete (some e, applied, after) h = absurd (ground arith)
settle-none manager dev to_delete (none, applied, after) h = refl

-- A reconciliation that succeeds has applied exactly what the peers ask for: it issued an append for
-- each entry that was missing, then a deletion for each that was too many, and nothing else.
pub reconcile-Reconciled :
    (hash_key : String → ℕ) (peers : List OverlayPeer) (manager : OverlayManager) (shell : Shell)
    → (reconcile hash_key peers manager shell).0 ≡ none
    → Reconciled hash_key peers manager shell (reconcile hash_key peers manager shell)
unfolding reconcile diff_fdb
reconcile-Reconciled hash_key peers manager shell h =
    let want = to_set (fdb_entries_for_peers hash_key peers) in
    let dev = vxlan_device_name manager.vni in
    let added = append_entries dev (difference want manager.applied) manager.applied shell in
    let fine = settle-none manager dev (difference manager.applied want) added h in
    settle-Reconciled hash_key peers manager shell added
      (append_entries-Appended dev (difference want manager.applied) manager.applied shell fine) h

-- A manager that has applied what the peers ask for leaves everything as it is.
reconcile-settled :
    (hash_key : String → ℕ) (peers : List OverlayPeer) (manager : OverlayManager) (shell : Shell)
    → ((e : FdbEntry) → has e manager.applied ≡ has e (fdb_entries_for_peers hash_key peers))
    → reconcile hash_key peers manager shell ≡ (none, manager, shell)
unfolding reconcile diff_fdb settle append_entries delete_entries
reconcile-settled hash_key peers manager shell h =
    let want = to_set (fdb_entries_for_peers hash_key peers) in
    let same_set : (e : FdbEntry) → has e manager.applied ≡ has e want =
      λ e. h e ∙ sym (has-to_set e (fdb_entries_for_peers hash_key peers)) in
    rw (difference-empty want manager.applied λ e i. same_set e ∙ i)
      (rw (difference-empty manager.applied want λ e i. sym (same_set e) ∙ i) refl)

-- A reconciliation that succeeds is settled: a second one with the same peers issues no command and
-- changes nothing, also where a deletion of the first one failed.
pub reconcile_twice :
    (hash_key : String → ℕ) (peers : List OverlayPeer) (manager : OverlayManager) (shell : Shell)
    → (reconcile hash_key peers manager shell).0 ≡ none
    → reconcile hash_key peers
        (reconcile hash_key peers manager shell).1
        (reconcile hash_key peers manager shell).2
      ≡ reconcile hash_key peers manager shell
reconcile_twice hash_key peers manager shell h =
    reconcile-settled hash_key peers _ _
      (reconcile-Reconciled hash_key peers manager shell h).members
    ∙ ground arith
