-- ===== src/Cli/Restore.antt =====
-- main.rs: `snapshot restore`.
use Prim.Native.String.{◌++◌}
use bigtop.Common.{
  Option, none, some, List, [], ◌∷◌, String, ◌⊎◌, inl, inr, find, ◌==◌, if◌then◌else◌, Bool,
}
use bigtop.Core.Ids.{TaskId, SnapshotId}
use bigtop.Core.Snapshots.{SnapshotRecord, SnapshotState, debug}
use bigtop.Core.Types.{Task, JobSpec, restore_task_spec}
use bigtop.Core.Wire.{SubmitJobResponse}
use bigtop.Cli.{Client, Reply, expect, get_json, ◌>>=◌}

-- The server, as far as the command asks it: its replies to the requests, by their addresses.
pub record Endpoint : Type 0 where
  pub tasks : Client → String → Reply (List Task)
  pub snapshots : Client → String → Reply (List SnapshotRecord)
  pub submit : Client → String → JobSpec → Reply SubmitJobResponse

-- `opt.with_context(|| message)?`
abbrev pub with_context {ℓ} : {A : Type ℓ} → Option A → String → A ⊎ String
with_context none message = inr message
with_context (some a) message = inl a

-- `state == SnapshotState::Done`
unfoldable pub is_done : SnapshotState → Bool
is_done SnapshotState.done = Bool.true
is_done _ = Bool.false

-- The job that is submitted.
abbrev pub restore_job : SnapshotRecord → Task → JobSpec
restore_job r task = record {
  name = "restore-" ++ task.name;
  tasks = restore_task_spec r task ∷ [];
}

-- The submission, where the record was found.
unfoldable pub submit_restore :
    Client ⊎ String → Endpoint → SnapshotId → String → Task → SnapshotRecord → List String ⊎ String
unfolding expect restore_task_spec debug is_done
submit_restore client endpoint snapshot_id server task r =
    if is_done r.state
    then (do
      c ← client
      response ←
          expect "contacting server" "server rejected restore job" "reading response"
            (endpoint.submit c (server ++ "/v1/jobs") (restore_job r task))
      inl (("restoring snapshot " ++ snapshot_id ++ " as job " ++ response.job_id) ∷ []))
    else inr ("snapshot " ++ snapshot_id ++ " is " ++ debug r.state ++ ", not done")

unfoldable pub cmd_snapshot_restore :
    Client ⊎ String → Endpoint → TaskId → SnapshotId → String → List String ⊎ String
unfolding get_json submit_restore
cmd_snapshot_restore client endpoint task_id snapshot_id server = do
  tasks ← get_json client endpoint.tasks server "/v1/tasks"
  task ← with_context (find (λ t. t.id == task_id) tasks) ("task " ++ task_id ++ " not found")
  records ← get_json client endpoint.snapshots server ("/v1/tasks/" ++ task_id ++ "/snapshots")
  r ←
      with_context (find (λ r. r.id == snapshot_id) records)
        ("snapshot " ++ snapshot_id ++ " not found for task " ++ task_id)
  submit_restore client endpoint snapshot_id server task r
