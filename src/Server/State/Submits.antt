-- ===== src/Server/State/Submits.antt =====
-- Submitting jobs and tracking snapshots keep the invariant, whether they succeed or fail.
use bigtop.Common.{
  UniqueKeys-insert, ℕ, zero, suc, ◌+◌, ◌≡◌, refl, none, List, [], ◌∷◌, ◌++◌, get, Bool-cases, inl,
  inr, All, ◌==◌,
}
use bigtop.Core.Ids.{JobId, TaskId, SnapshotId}
use bigtop.Core.Error.{Result, ok, err}
use bigtop.Core.Snapshots.{SnapshotRecord}
use bigtop.Core.Types.{Task, TaskSpec, JobSpec, is_running}
use bigtop.Core.Wire.{RequestSnapshotRequest, ReportSnapshotResult}
use bigtop.Server.Ipam.{Ipam}
use bigtop.Server.State.{StateInner, journal_op}
use bigtop.Server.State.Jobs.{
  insert_tasks, expand, new_task, tasks_of, submit, validate, create_job,
}
use bigtop.Server.State.Snapshots.{
  request_snapshot, report_snapshot_result, accept, update, reported, is_requested, legal,
}
use bigtop.Server.State.Invariant.{Inv, PendingFree-insert_free}
use bigtop.Server.State.Preserves.{
  Keeps, Inv-same, and_then-Inv, ok_or-Inv, pure-Keeps, journal_op-Keeps,
}

All-joined {κ} : (P : Task → Type κ) (xs ys : List Task) → All P xs → All P ys → All P (xs ++ ys)
All-joined P [] ys a b = b
All-joined P (x ∷ xs) ys a b = (a.0, All-joined P xs ys a.1 b)

-- What holds of every new task with a generated id holds of the tasks of a job.
module _ {κ} (P : Task → Type κ) (job_id : JobId) (fresh : ℕ → TaskId)
    (new : (one : TaskSpec) (n : ℕ) → P (new_task job_id one (fresh n))) where
  tasks_of-All : (one : TaskSpec) (n k : ℕ) → All P (tasks_of job_id fresh one n k)
  unfolding tasks_of
  tasks_of-All one n zero = tt
  tasks_of-All one n (suc k) = (new one n, tasks_of-All one (n + 1) k)

  pub expand-All : (n : ℕ) (specs : List TaskSpec) → All P (expand job_id fresh n specs)
  unfolding expand
  expand-All n [] = tt
  expand-All n (one ∷ specs) =
      All-joined P (tasks_of job_id fresh one n one.count) _ (tasks_of-All one n one.count)
        (expand-All (n + one.count) specs)

-- None of the tasks' ids holds an address.
abbrev Unheld : Ipam → List Task → Type 0
Unheld p tasks = All (λ task. get task.id p.allocated ≡ none) tasks

insert_tasks-Inv :
    (tasks : List Task) (s : StateInner) → Unheld s.ipam tasks → Inv s → Inv (insert_tasks tasks s)
unfolding insert_tasks
insert_tasks-Inv [] s free v = v
insert_tasks-Inv (task ∷ tasks) s free v = insert_tasks-Inv tasks _ free.1 (record {
  nodes = v.nodes;
  ipam = v.ipam;
  tasks = UniqueKeys-insert task.id task s.tasks v.tasks;
  waiting = PendingFree-insert_free task.id task s.tasks s.ipam free.0 v.waiting;
})

-- A job submission keeps the invariant of the server's state, whatever its result, where none of the
-- ids that it generates holds an address.
pub create_job-Inv :
    (spec : JobSpec) (job_id : JobId) (fresh : ℕ → TaskId) (now : ℕ) (s : StateInner)
    → ((n : ℕ) → get (fresh n) s.ipam.allocated ≡ none)
    → Inv s
    → Inv (create_job spec job_id fresh now s).1
unfolding create_job submit
create_job-Inv spec job_id fresh now s new v = go (validate spec) refl
  where
    tasks : List Task
    tasks = expand job_id fresh 0 spec.tasks

    submitted : Inv (submit spec job_id fresh now s).1
    submitted =
        and_then-Inv (journal_op _ _) _
          (journal_op-Keeps _ _ (
            Inv-same (insert_tasks tasks s) _ refl refl refl (
              insert_tasks-Inv tasks s
                (expand-All (λ t. get t.id s.ipam.allocated ≡ none) job_id fresh (λ one. new) 0
                  spec.tasks)
                v)))
          λ a. pure-Keeps job_id

    go : (r : Result (Unit {0})) → validate spec ≡ r → Inv (create_job spec job_id fresh now s).1
    go (err e) bad = rw (bad, create_job) v
    go (ok a) good = rw (good, create_job) submitted

accept-Keeps : (r : SnapshotRecord) → Keeps (accept r)
unfolding accept
accept-Keeps r s v =
    and_then-Inv (journal_op _ _) _
      (journal_op-Keeps _ _
        (record { nodes = v.nodes; ipam = v.ipam; tasks = v.tasks; waiting = v.waiting }))
      λ a. pure-Keeps r

pub request_snapshot-Inv :
    (id : SnapshotId) (task_id : TaskId) (req : RequestSnapshotRequest) (now : ℕ)
    → (s : StateInner) → Inv s
    → Inv (request_snapshot id task_id req now s).1
unfolding request_snapshot
request_snapshot-Inv id task_id req now s v = ok_or-Inv (get task_id s.tasks) _ _ s v λ task found.
    elim (Bool-cases (is_running task.state)) [
      | inr other ↦ rw other v
      | inl running ↦
          rw running (ok_or-Inv task.assigned_node _ _ s v λ node_id _. accept-Keeps _ s v)
    ]

update-Keeps :
    (task_id : TaskId) (snapshot_id : SnapshotId) (result : ReportSnapshotResult)
    (r : SnapshotRecord)
    → Keeps (update task_id snapshot_id result r)
unfolding update
update-Keeps task_id snapshot_id result r s v =
    and_then-Inv (journal_op _ _) _
      (journal_op-Keeps _ _
        (record { nodes = v.nodes; ipam = v.ipam; tasks = v.tasks; waiting = v.waiting }))
      λ a. pure-Keeps (reported r result)

pub report_snapshot_result-Inv :
    (task_id : TaskId) (snapshot_id : SnapshotId) (result : ReportSnapshotResult)
    → (s : StateInner) → Inv s
    → Inv (report_snapshot_result task_id snapshot_id result s).1
unfolding report_snapshot_result
report_snapshot_result-Inv task_id snapshot_id result s v =
    elim (Bool-cases (is_requested result.state)) [
      | inl bad ↦ rw bad v
      | inr agent ↦ rw agent (
          ok_or-Inv (get snapshot_id s.snapshots) _ _ s v λ r found.
            elim (Bool-cases (r.task_id == task_id)) [
              | inr other ↦ rw other v
              | inl own ↦ rw own (elim (Bool-cases (legal r.state result.state)) [
                | inr illegal ↦ rw illegal v
                | inl allowed ↦ rw allowed (update-Keeps task_id snapshot_id result r s v)
              ])
            ])
    ]
