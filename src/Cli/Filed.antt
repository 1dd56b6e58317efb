-- ===== src/Cli/Filed.antt =====
-- state.rs: the tasks of a job with one spec.
use bigtop.Common.{
  ℕ, zero, suc, ◌+◌, ◌≡◌, inl, inr, refl, sym, ap, ◌∙◌, subst, false, some, List, [], ◌∷◌,
  append-nil, arith, Bool-cases, String, ◌==◌, eqb, All, get, get-insert, get-insert_self,
}
use bigtop.Core.Ids.{JobId, TaskId}
use bigtop.Core.Error.{Error, Result, ok, err}
use bigtop.Core.Types.{Task, TaskSpec, JobSpec}
use bigtop.Server.State.Preserves.{tasks-journal_op}
use bigtop.Server.State.{StateInner, journal_op, and_then, pure}
use bigtop.Server.State.Jobs.{
  insert_tasks, expand, tasks_of, submit, validate, validate_tasks, create_job, new_task,
}

module _ (P : Task → Type 0) (k : TaskId) where
  -- The task that is filed under `k` is one of these.
  abbrev pub Filed : StateInner → Type 0
  Filed s = (task : Task) × (get k s.tasks ≡ some task) × P task

  Filed-insert_tasks :
      (tasks : List Task) (s : StateInner) → All P tasks → Filed s → Filed (insert_tasks tasks s)
  unfolding insert_tasks
  Filed-insert_tasks [] s all h = h
  Filed-insert_tasks (t ∷ tasks) s all (task, found, p) =
      Filed-insert_tasks tasks _ all.1 (elim (Bool-cases (t.id == k)) [
        | inl same ↦ (t, rw (get-insert t.id k t s.tasks, same), all.0)
        | inr other ↦ (task, rw (get-insert t.id k t s.tasks, other) found, p)
      ])

-- A task of this spec that nobody has touched.
abbrev pub Fresh : JobId → TaskSpec → Task → Type 0
Fresh job_id one task = task ≡ new_task job_id one task.id

Fresh-tasks_of :
    (job_id : JobId) (fresh : ℕ → TaskId) (one : TaskSpec) (n k : ℕ)
    → All (Fresh job_id one) (tasks_of job_id fresh one n k)
unfolding tasks_of
Fresh-tasks_of job_id fresh one n zero = tt
Fresh-tasks_of job_id fresh one n (suc k) = (refl, Fresh-tasks_of job_id fresh one (n + 1) k)

Filed-tasks_of :
    (job_id : JobId) (fresh : ℕ → TaskId) (one : TaskSpec) (s : StateInner) (k : ℕ)
    → eqb k 0 ≡ false
    → Filed (Fresh job_id one) (fresh 0) (insert_tasks (tasks_of job_id fresh one 0 k) s)
unfolding tasks_of insert_tasks
Filed-tasks_of job_id fresh one s zero h = absurd (ground arith)
Filed-tasks_of job_id fresh one s (suc k) h =
    Filed-insert_tasks (Fresh job_id one) (fresh 0) (tasks_of job_id fresh one 1 k) _
      (Fresh-tasks_of job_id fresh one 1 k)
      (new_task job_id one (fresh 0), get-insert_self (fresh 0) _ s.tasks, refl)

validate-count :
    (name : String) (one : TaskSpec) (u : Unit {0})
    → validate (record { name = name; tasks = one ∷ [] }) ≡ ok u
    → eqb one.count 0 ≡ false
unfolding validate validate_tasks
validate-count name one u h = ground arith

and_then-pure :
    {A B : Type 0} (r : Result A × StateInner) (b : B) → (and_then r (λ _. pure b)).1 ≡ r.1
and_then-pure (ok a, s) b = refl
and_then-pure (err e, s) b = refl

tasks-submit :
    (spec : JobSpec) (job_id : JobId) (fresh : ℕ → TaskId) (now : ℕ) (s : StateInner)
    → (submit spec job_id fresh now s).1.tasks
      ≡ (insert_tasks (expand job_id fresh 0 spec.tasks) s).tasks
unfolding submit
tasks-submit spec job_id fresh now s =
    ap (λ u. u.tasks) (and_then-pure (journal_op _ _) job_id) ∙ tasks-journal_op _ _

expand-single :
    (job_id : JobId) (fresh : ℕ → TaskId) (one : TaskSpec)
    → expand job_id fresh 0 (one ∷ []) ≡ tasks_of job_id fresh one 0 one.count
unfolding expand
expand-single job_id fresh one = append-nil _

pub create_job-Filed :
    (name : String) (one : TaskSpec) (job_id j : JobId) (fresh : ℕ → TaskId) (now : ℕ)
    (s : StateInner)
    → (create_job (record { name = name; tasks = one ∷ [] }) job_id fresh now s).0 ≡ ok j
    → Filed
        (Fresh job_id one)
        (fresh 0)
        (create_job (record { name = name; tasks = one ∷ [] }) job_id fresh now s).1
unfolding create_job
create_job-Filed name one job_id j fresh now s h = go (validate spec) refl
  where
    spec : JobSpec
    spec = record { name = name; tasks = one ∷ [] }

    refused : (e : Error) → validate spec ≡ err e → ⊥
    refused e bad = ground (arith, rw (bad, create_job) at h)

    go :
        (r : Result (Unit {0}))
        → validate spec ≡ r
        → Filed (Fresh job_id one) (fresh 0) (create_job spec job_id fresh now s).1
    go (err e) bad = absurd (refused e bad)
    go (ok u) good =
        rw (good, create_job)
          (subst (λ tasks. (t : Task) × (get (fresh 0) tasks ≡ some t) × Fresh job_id one t)
            (sym (
              tasks-submit spec job_id fresh now s
              ∙ ap (λ tasks. (insert_tasks tasks s).tasks) (expand-single job_id fresh one)))
            (Filed-tasks_of job_id fresh one s one.count (validate-count name one u good)))
