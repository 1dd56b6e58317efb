-- ===== src/Tests/Audits.antt =====
-- The audit of a snapshot, its driver, and the ids that a process generates.
use bigtop.Common.{
  ℕ, zero, suc, ◌≡◌, refl, true, false, none, List, [], ◌∷◌, ◌++◌, String, ◌⊎◌, inl, inr, HashMap,
  arith, get, eq_iff,
}
use bigtop.Common.Distinct.{Distinct}
use bigtop.Core.Ids.{Kind}
use bigtop.Core.Ids.Fresh.{generated, generated-Distinct}
use bigtop.Core.Snapshots.{SnapshotRecord, SnapshotState, SnapshotType}
use bigtop.Server.State.Snapshots.{legal}
use bigtop.Server.Shadow.{as_str, ShadowInput, Verdict}
use bigtop.Server.Shadow.Audit.{Engine, observe_body}
use bigtop.Server.Shadow.Later.{Moves}
use bigtop.Server.Shadow.Watched.{Audited, Mirrored, snapshot_shadow-Audited}
use bigtop.Server.Shadow.Handle.{TrackCmd}
use bigtop.Server.Shadow.Driver.{
  sweep, ShadowResult, Row, ShadowDriver, ExecutionOutcome, Codec, Round, drive, is_pending,
}
use bigtop.Server.Shadow.Driver.Rows.{Kept, OneRow}
use bigtop.Server.Shadow.Driver.Table.{drive-Sound}
use bigtop.Server.Shadow.Driver.Places.{with_verdict}
use bigtop.Server.Shadow.Driver.Ends.{Settles, Ends, AllEnds}
use bigtop.Server.Shadow.Driver.Live.{sweep-AllEnds}
use bigtop.Server.Shadow.Driver.Sweeps.{Unreadable, drive_blocked}

-- ---------------------------------------------------------------- the workflow

abbrev snapshot_in : SnapshotState → SnapshotRecord
snapshot_in state = record {
  id = "snap-1";
  task_id = "task-2";
  node_id = "node-1";
  spec = record { snapshot_type = SnapshotType.full; mem_file_path = ""; snapshot_path = "" };
  state = state;
  error = none;
  created_at = 4;
}

-- The snapshot is requested at first, and done when the audit looks again.
abbrev record_at : ℕ → SnapshotRecord
record_at zero = snapshot_in SnapshotState.requested
record_at (suc n) = snapshot_in SnapshotState.done

abbrev mirror_at : ℕ → HashMap SnapshotRecord
mirror_at n = ("snap-1", record_at n) ∷ []

abbrev time_at : ℕ → ℕ
time_at n = n

abbrev engine : Engine
engine = record {
  sample = λ n. inl (observe_body (mirror_at n) "snap-1" (time_at n));
  timer = λ n. none;
}

abbrev input : ShadowInput
input = record {
  snapshot_id = "snap-1";
  task_id = "task-2";
  node_id = "node-1";
  poll_secs = 5;
  max_polls = 72;
}

engine-Mirrored : Mirrored engine input.snapshot_id mirror_at record_at time_at
unfolding get
engine-Mirrored = record { sample = λ n. refl; timer = λ n. refl; held = λ n. refl }

moves : (n : ℕ) → Moves (record_at n).state (record_at (suc n)).state
unfolding legal
moves zero = Moves.then_move Moves.still refl
moves (suc n) = Moves.still

snapshot_shadow-Audited_example : Audited engine input (λ n. (record_at n).state)
snapshot_shadow-Audited_example =
    snapshot_shadow-Audited engine input mirror_at record_at time_at engine-Mirrored moves

-- ---------------------------------------------------------------- the driver

abbrev row_of : String → String → String → Row
row_of id exec verdict = record {
  snapshot_id = id;
  execution_id = exec;
  task_id = "task-2";
  verdict = verdict;
  observations_json = "[]";
  detail = "";
  updated_at = "2026-01-01T00:00:00Z";
}

-- One audit is over, and one is pending.
abbrev driver : ShadowDriver
driver = record {
  rows = row_of "snap-1" "exec-1" "agree" ∷ row_of "snap-2" "exec-2" "pending" ∷ [];
  statements = [];
  started = 2;
  observations = 3;
  errors = 0;
}

abbrev codec : Codec
codec = record {
  execution_id = λ s. inl s;
  output = λ s. inl (record { snapshot_id = "snap-2"; verdict = Verdict.stuck; observations = [] });
  encode = λ os. inl "[]";
}

abbrev command : TrackCmd
command = record { snapshot_id = "snap-3"; task_id = "task-3"; node_id = "node-1" }

-- A new snapshot is announced, and the engine has come to the end of every workflow.
abbrev round_of : (String → ExecutionOutcome ⊎ String) → Round
round_of outcome = record {
  commands = (command, inl "exec-3", "2026-01-01T00:00:01Z") ∷ [];
  poll = none;
  outcome = outcome;
  now = "2026-01-01T00:00:02Z";
}

abbrev finished : String → ExecutionOutcome ⊎ String
finished exec = inl (ExecutionOutcome.completed "{}")

abbrev unknown : String → ExecutionOutcome ⊎ String
unknown exec = inr "no such execution"

one_row : OneRow driver.rows
one_row = (((λ e. ground (arith, eq_iff "snap-2" "snap-1")), tt), (tt, tt))

drive-Sound_example :
    Kept driver.rows (drive codec (round_of finished ∷ []) driver).rows
    × OneRow (drive codec (round_of finished ∷ []) driver).rows
drive-Sound_example = drive-Sound codec (round_of finished ∷ []) driver one_row

settled : is_pending (row_of "snap-1" "exec-1" "agree") ≡ false
unfolding is_pending
settled = refl

open_row : is_pending (row_of "snap-2" "exec-2" "pending") ≡ true
unfolding is_pending
open_row = refl

drive_blocked_example :
    (extra : List Row) × ((drive codec (round_of unknown ∷ round_of unknown ∷ []) driver).rows
      ≡ driver.rows ++ extra)
drive_blocked_example =
    drive_blocked codec (row_of "snap-1" "exec-1" "agree" ∷ []) []
      (row_of "snap-2" "exec-2" "pending") (round_of unknown ∷ round_of unknown ∷ []) driver refl
      (settled, tt) open_row
      (
        Unreadable.bad_outcome "exec-2" "no such execution" refl refl,
        (Unreadable.bad_outcome "exec-2" "no such execution" refl refl, tt),
      )

-- The second audit is over, and the sweep files its verdict.
swept : AllEnds codec "2026-01-01T00:00:02Z" finished driver.rows (
    row_of "snap-1" "exec-1" "agree"
    ∷ with_verdict
        (row_of "snap-2" "exec-2" "pending")
        (as_str Verdict.stuck)
        "[]"
        ""
        "2026-01-01T00:00:02Z"
    ∷ [])
swept = (
  Ends.over settled,
  (
    Ends.settles open_row (
        Settles.completed "exec-2" "{}" "[]"
          (record { snapshot_id = "snap-2"; verdict = Verdict.stuck; observations = [] }) refl refl
          refl refl),
    tt,
  ),
)

sweep-AllEnds_example :
    ((sweep codec "2026-01-01T00:00:02Z" finished driver).0 ≡ ShadowResult.ok tt)
    × ((sweep codec "2026-01-01T00:00:02Z" finished driver).1.rows
        ≡ row_of "snap-1" "exec-1" "agree"
          ∷ with_verdict
              (row_of "snap-2" "exec-2" "pending")
              (as_str Verdict.stuck)
              "[]"
              ""
              "2026-01-01T00:00:02Z"
          ∷ [])
sweep-AllEnds_example =
    sweep-AllEnds codec "2026-01-01T00:00:02Z" finished driver _ refl one_row swept

-- ---------------------------------------------------------------- ids

generated-Distinct_example :
    Distinct
      (generated 4242 ((Kind.job, 5) ∷ (Kind.task, 5) ∷ (Kind.task, 5) ∷ []) 18446744073709551615)
generated-Distinct_example =
    generated-Distinct 4242 ((Kind.job, 5) ∷ (Kind.task, 5) ∷ (Kind.task, 5) ∷ [])
      18446744073709551615 (omega arith) (omega arith)
