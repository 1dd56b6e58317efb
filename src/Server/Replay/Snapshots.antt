-- ===== src/Server/Replay/Snapshots.antt =====
-- Snapshot requests and reports have journaled what they changed.
use bigtop.Common.{
  subst, ℕ, ◌≡◌, refl, sym, ap, ◌∙◌, true, false, none, some, get, insert, arith, Option-cases,
  Bool-cases, inl, inr, ◌==◌,
}
use bigtop.Core.Ids.{TaskId, SnapshotId}
use bigtop.Core.Error.{ok}
use bigtop.Core.Snapshots.{SnapshotRecord}
use bigtop.Core.Types.{is_running}
use bigtop.Core.Wire.{RequestSnapshotRequest, ReportSnapshotResult}
use bigtop.Server.Journal.{JournalOp}
use bigtop.Server.State.{StateInner, journal_op}
use bigtop.Server.State.Snapshots.{
  request_snapshot, report_snapshot_result, accept, update, reported, legal, is_requested,
  new_record,
}
use bigtop.Server.Replay.{apply_one}
use bigtop.Server.Replay.Same.{Same, Journaled, Extends, Extends-journal}

accept-Extends :
    (now : ℕ) (r : SnapshotRecord) (s : StateInner) (a : SnapshotRecord)
    → Journaled s
    → (accept r s).0 ≡ ok a
    → Extends now s (accept r s).1
unfolding accept apply_one
accept-Extends now r s a j h =
    Extends-journal now (JournalOp.request_snapshot r) s _ r a j refl h λ t same. record {
      jobs = same.jobs;
      tasks = same.tasks;
      snapshots = ap (insert r.id r) same.snapshots;
      ipam = same.ipam;
      nodes = same.nodes;
      parked = same.parked;
    }

-- A snapshot request that succeeds, on a journaled state, has journaled what it changed: the journal
-- grew by entries whose replay, at whatever later time, takes every state that stands for the one
-- before to one that stands for the one behind.
pub request_snapshot-Extends :
    (later now : ℕ) (id : SnapshotId) (task_id : TaskId) (req : RequestSnapshotRequest)
    (s : StateInner) (a : SnapshotRecord)
    → Journaled s
    → (request_snapshot id task_id req now s).0 ≡ ok a
    → Extends later s (request_snapshot id task_id req now s).1
unfolding request_snapshot
request_snapshot-Extends later now id task_id req s a j h =
    elim (Option-cases (get task_id s.tasks)) [
      | inl missing ↦ absurd (ground arith)
      | inr (task, found) ↦ elim (Bool-cases (is_running task.state)) [
        | inr other ↦ absurd (ground arith)
        | inl running ↦ elim (Option-cases task.assigned_node) [
          | inl nowhere ↦ absurd (ground arith)
          | inr (node_id, here) ↦
              rw (found, running, here)
                (accept-Extends later (new_record id task_id node_id req now) s a j
                  (rw (found, running, here, request_snapshot) at h))
        ]
      ]
    ]

module _ (task_id : TaskId) (snapshot_id : SnapshotId) (result : ReportSnapshotResult) where
  -- A report that passes the checks comes down to the update.
  report-update :
      (s : StateInner) (r : SnapshotRecord)
      → get snapshot_id s.snapshots ≡ some r
      → is_requested result.state ≡ false
      → (r.task_id == task_id) ≡ true
      → legal r.state result.state ≡ true
      → report_snapshot_result task_id snapshot_id result s ≡ update task_id snapshot_id result r s
  unfolding report_snapshot_result
  report-update s r found agent own allowed = rw (agent, found, own, allowed)

  update-parked :
      (t : StateInner) (r : SnapshotRecord)
      → t.journal ≡ none
      → (update task_id snapshot_id result r t).1
        ≡ record t { snapshots = insert snapshot_id (reported r result) t.snapshots }
  unfolding update journal_op
  update-parked t r parked = ground arith

  module _ (s : StateInner) (r : SnapshotRecord) (found : get snapshot_id s.snapshots ≡ some r)
      (agent : is_requested result.state ≡ false) (own : (r.task_id == task_id) ≡ true)
      (allowed : legal r.state result.state ≡ true) where
    abbrev updated : StateInner
    updated = record s { snapshots = insert snapshot_id (reported r result) s.snapshots }

    report-Same :
        (t : StateInner)
        → Same s t
        → Same updated (report_snapshot_result task_id snapshot_id result t).1
    report-Same t same =
        subst (Same updated)
          (sym (
            ap (λ q. q.1)
              (report-update t r (ap (get snapshot_id) same.snapshots ∙ found) agent own allowed)
            ∙ update-parked t r same.parked))
          (record {
            jobs = same.jobs;
            tasks = same.tasks;
            snapshots = ap (insert snapshot_id (reported r result)) same.snapshots;
            ipam = same.ipam;
            nodes = same.nodes;
            parked = same.parked;
          })

    update-Extends :
        (now : ℕ) (a : SnapshotRecord)
        → Journaled s
        → (update task_id snapshot_id result r s).0 ≡ ok a
        → Extends now s (update task_id snapshot_id result r s).1
    unfolding update apply_one
    update-Extends now a j h =
        Extends-journal now (JournalOp.report_snapshot task_id snapshot_id result) s updated
          (reported r result) a j refl h report-Same

  -- A snapshot report that succeeds, on a journaled state, has journaled what it changed: the
  -- journal grew by entries whose replay, at whatever later time, takes every state that stands for
  -- the one before to one that stands for the one behind.
  pub report_snapshot_result-Extends :
      (now : ℕ) (s : StateInner) (a : SnapshotRecord)
      → Journaled s
      → (report_snapshot_result task_id snapshot_id result s).0 ≡ ok a
      → Extends now s (report_snapshot_result task_id snapshot_id result s).1
  unfolding report_snapshot_result
  report_snapshot_result-Extends now s a j h = elim (Bool-cases (is_requested result.state)) [
    | inl bad ↦ absurd (ground arith)
    | inr agent ↦ elim (Option-cases (get snapshot_id s.snapshots)) [
      | inl missing ↦ absurd (ground arith)
      | inr (r, found) ↦ elim (Bool-cases (r.task_id == task_id)) [
        | inr other ↦ absurd (ground arith)
        | inl own ↦ elim (Bool-cases (legal r.state result.state)) [
          | inr illegal ↦ absurd (ground arith)
          | inl allowed ↦ rw (report-update s r found agent own allowed) (
              update-Extends s r found agent own allowed now a j
                (rw (report-update s r found agent own allowed) at h))
        ]
      ]
    ]
  ]
