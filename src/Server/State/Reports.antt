-- ===== src/Server/State/Reports.antt =====
-- state.rs: `report_snapshot_result` moves a snapshot forward, and only its own record.
use bigtop.Common.{
  ℕ, ◌<◌, ◌≡◌, ◌≢◌, true, false, some, get, insert, arith, get-insert_self, get-insert_ne,
  Option-cases, Bool-cases, inl, inr, ◌==◌, eq_iff,
}
use bigtop.Core.Ids.{TaskId, SnapshotId}
use bigtop.Core.Error.{ok}
use bigtop.Core.Snapshots.{
  SnapshotState, requested, in_progress, done, failed, SnapshotRecord, is_terminal,
}
use bigtop.Core.Wire.{ReportSnapshotResult}
use bigtop.Server.State.{StateInner, journal_op}
use bigtop.Server.State.Snapshots.{legal, is_requested, update, report_snapshot_result}

-- How far a snapshot has come.
unfoldable pub rank : SnapshotState → ℕ
rank requested = 0
rank in_progress = 1
rank done = 2
rank failed = 2

legal-rank : (a b : SnapshotState) → legal a b ≡ true → (rank a < rank b) × (is_terminal a ≡ false)
unfolding legal is_terminal rank
legal-rank a b h = ground arith

-- A report that was taken: `a` is the record behind it.
pub record Moved (task_id : TaskId) (id : SnapshotId) (result : ReportSnapshotResult)
    (a : SnapshotRecord) (s u : StateInner) : Type 0 where
  pub old : SnapshotRecord
  pub before : get id s.snapshots ≡ some old
  pub own : old.task_id ≡ task_id
  pub active : is_terminal old.state ≡ false
  pub forward : rank old.state < rank a.state
  pub state : a.state ≡ result.state
  pub after : get id u.snapshots ≡ some a
  pub others : (k : SnapshotId) → k ≢ id → get k u.snapshots ≡ get k s.snapshots

snapshots-update :
    (task_id : TaskId) (id : SnapshotId) (result : ReportSnapshotResult) (r a : SnapshotRecord)
    (s : StateInner)
    → (update task_id id result r s).0 ≡ ok a
    → (a.state ≡ result.state)
      × ((update task_id id result r s).1.snapshots ≡ insert id a s.snapshots)
unfolding update journal_op
snapshots-update task_id id result r a s h = ground arith

-- A report that succeeds found the snapshot under the task it names, in a state that is not
-- terminal, and moved it strictly forward to the reported state; every other snapshot is as it was.
pub report_snapshot_result-Moved :
    (task_id : TaskId) (id : SnapshotId) (result : ReportSnapshotResult) (a : SnapshotRecord)
    (s : StateInner)
    → (report_snapshot_result task_id id result s).0 ≡ ok a
    → Moved task_id id result a s (report_snapshot_result task_id id result s).1
unfolding report_snapshot_result
report_snapshot_result-Moved task_id id result a s h =
    elim (Bool-cases (is_requested result.state)) [
      | inl bad ↦ absurd (ground arith)
      | inr agent ↦ elim (Option-cases (get id s.snapshots)) [
        | inl missing ↦ absurd (ground arith)
        | inr (r, found) ↦ elim (Bool-cases (r.task_id == task_id)) [
          | inr foreign ↦ absurd (ground arith)
          | inl own ↦ elim (Bool-cases (legal r.state result.state)) [
            | inr illegal ↦ absurd (ground arith)
            | inl allowed ↦
                let (state, written) = snapshots-update task_id id result r a s (ground arith) in
                let (forward, open') = legal-rank r.state result.state allowed in
                rw (agent, found, own, allowed)
                  (record {
                    old = r;
                    before = found;
                    own = ground (arith, eq_iff r.task_id task_id);
                    active = open';
                    forward = ground arith;
                    state = state;
                    after = ground (arith, written, get-insert_self id a s.snapshots);
                    others = λ k ne. ground (arith, written, get-insert_ne id k a s.snapshots);
                  })
          ]
        ]
      ]
    ]
