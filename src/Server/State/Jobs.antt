-- ===== src/Server/State/Jobs.antt =====
-- state.rs: `validate` and `create_job`. The generated ids are arguments: `fresh n` is the id that
-- the call's `n`-th `TaskId::generate` returns.
use bigtop.Common.{
  ℕ, zero, suc, ◌+◌, String, Bool, true, ◌&&◌, ◌||◌, none, List, [], ◌∷◌, ◌++◌, insert, leb, eqb,
  if◌then◌else◌,
}
use Prim.Native.Char.{code}
use Prim.Native.String.{◌++◌ as append}
use bigtop.Core.Ids.{JobId, TaskId}
use bigtop.Core.Error.{invalid_job_spec, Result, ok, err}
use bigtop.Core.Types.{Task, TaskSpec, JobSpec, TaskState}
use bigtop.Server.Journal.{JournalOp}
use bigtop.Server.State.{StateInner, Exec, ◌>>◌, pure, modify, journal_op}

-- `char::is_whitespace`: the Unicode property White_Space.
unfoldable pub is_whitespace : ℕ → Bool
is_whitespace c =
    leb 9 c && leb c 13
    || eqb c 32
    || eqb c 133
    || eqb c 160
    || eqb c 5760
    || leb 8192 c && leb c 8202
    || eqb c 8232
    || eqb c 8233
    || eqb c 8239
    || eqb c 8287
    || eqb c 12288

-- `s.trim().is_empty()`
unfoldable pub is_blank : String → Bool
unfolding is_whitespace
is_blank String.[] = true
is_blank (String.◌∷◌ c s) = is_whitespace (code c) && is_blank s

-- The loop of `validate` over the task specs.
unfoldable pub validate_tasks : List TaskSpec → Result (Unit {0})
unfolding is_blank
validate_tasks [] = ok tt
validate_tasks (task ∷ tasks) =
    let rest = validate_tasks tasks in
    if is_blank task.name
    then err (invalid_job_spec "a task spec has an empty name")
    else (if is_blank task.command
        then err
            (invalid_job_spec (append "task spec '" (append task.name "' has an empty command")))
        else (if eqb task.count 0
            then err (invalid_job_spec (append "task spec '" (append task.name "' has count 0")))
            else rest))

unfoldable pub validate : JobSpec → Result (Unit {0})
unfolding validate_tasks
validate spec =
    if is_blank spec.name then err (invalid_job_spec "job name is empty") else elim spec.tasks [
      | [] ↦ err (invalid_job_spec "job has no task specs")
      | task ∷ tasks ↦ validate_tasks (task ∷ tasks)
    ]

-- One pending task of a spec.
abbrev pub new_task : JobId → TaskSpec → TaskId → Task
new_task job_id one id = record {
  id = id;
  job_id = job_id;
  name = one.name;
  spec = record one { count = 1 };
  state = TaskState.pending;
  assigned_node = none;
  exit_code = none;
  network = none;
}

-- The inner loop: `k` tasks of one spec, with the ids from the `n`-th on.
unfoldable pub tasks_of : JobId → (ℕ → TaskId) → TaskSpec → ℕ → ℕ → List Task
tasks_of job_id fresh one n zero = []
tasks_of job_id fresh one n (suc k) =
    new_task job_id one (fresh n) ∷ tasks_of job_id fresh one (n + 1) k

-- The outer loop: the tasks of all specs, in submission order.
unfoldable pub expand : JobId → (ℕ → TaskId) → ℕ → List TaskSpec → List Task
unfolding tasks_of
expand job_id fresh n [] = []
expand job_id fresh n (one ∷ specs) =
    tasks_of job_id fresh one n one.count ++ expand job_id fresh (n + one.count) specs

-- What the loops do to the state: an empty log and an entry for each task.
unfoldable pub insert_tasks : List Task → StateInner → StateInner
insert_tasks [] s = s
insert_tasks (task ∷ tasks) s =
    insert_tasks tasks
      (record s { logs = insert task.id [] s.logs; tasks = insert task.id task s.tasks })

-- `create_job` behind its validation.
unfoldable pub submit : JobSpec → JobId → (ℕ → TaskId) → ℕ → Exec JobId
unfolding expand insert_tasks
submit spec job_id fresh now =
    let tasks = expand job_id fresh 0 spec.tasks in
    do
      modify (insert_tasks tasks)
      modify (λ s. record s {
        jobs = insert job_id (record { name = spec.name; created_at = now }) s.jobs;
      })
      journal_op (JournalOp.create_job job_id spec.name now tasks)
      pure job_id

unfoldable pub create_job : JobSpec → JobId → (ℕ → TaskId) → ℕ → Exec JobId
unfolding validate submit
create_job spec job_id fresh now s = elim (validate spec) [
  | err e ↦ (err e, s)
  | ok _ ↦ submit spec job_id fresh now s
]
