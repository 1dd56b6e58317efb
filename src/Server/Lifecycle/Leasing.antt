-- ===== src/Server/Lifecycle/Leasing.antt =====
-- state.rs: every address stays with a task that is assigned or runs, in each operation.
use bigtop.Common.{
  ℕ, ◌≡◌, true, false, none, Option, List, [], ◌∷◌, get, insert, arith, Bool-cases, inl, inr, All,
}
use bigtop.Common.Int.{ℤ}
use bigtop.Core.Ids.{JobId, TaskId}
use bigtop.Core.Types.{Task, TaskState, JobSpec, is_terminal}
use bigtop.Server.State.{StateInner}
use bigtop.Server.State.Jobs.{create_job, insert_tasks, expand}
use bigtop.Server.State.Tasks.{set_task_state}
use bigtop.Server.State.Submits.{expand-All}
use bigtop.Core.Types.{is_pending, holds_resources}
use bigtop.Server.Lifecycle.Owners.{
  Leased, Tenants, OwnedBut-insert, Owned-insert, Owned-new, Owned-absent,
}
use bigtop.Server.Lifecycle.Leases.{release_ip-Leased}
use bigtop.Server.Lifecycle.Frames.{create_job-At, set_task_state-At}

insert_tasks-Leased :
    (tasks : List Task) (s : StateInner)
    → All (λ t. get t.id s.ipam.allocated ≡ none) tasks
    → Leased s
    → Leased (insert_tasks tasks s)
unfolding insert_tasks
insert_tasks-Leased [] s free o = o
insert_tasks-Leased (t ∷ tasks) s free o =
    insert_tasks-Leased tasks _ free.1 (Owned-new t.id t s.tasks s.ipam.allocated free.0 o)

pub create_job-Leased :
    (spec : JobSpec) (job_id : JobId) (fresh : ℕ → TaskId) (now : ℕ) (s : StateInner)
    → ((n : ℕ) → get (fresh n) s.tasks ≡ none)
    → Leased s
    → Leased (create_job spec job_id fresh now s).1
create_job-Leased spec job_id fresh now s new o = create_job-At Tenants s o spec job_id fresh now (
    insert_tasks-Leased (expand job_id fresh 0 spec.tasks) s
      (expand-All (λ t. get t.id s.ipam.allocated ≡ none) job_id fresh
        (λ one n. Owned-absent (fresh n) s.tasks s.ipam.allocated o (new n)) 0 spec.tasks)
      o)

pub busy-holds :
    (state : TaskState)
    → is_pending state ≡ false
    → is_terminal state ≡ false
    → holds_resources state ≡ true
unfolding is_pending is_terminal holds_resources
busy-holds state h k = ground arith

pub set_task_state-Leased :
    (id : TaskId) (state : TaskState) (exit_code : Option ℤ)
    → is_pending state ≡ false
    → (s : StateInner) → Leased s
    → Leased (set_task_state id state exit_code s).1
set_task_state-Leased id state exit_code busy s o =
    set_task_state-At Tenants s o id state exit_code λ task found open'.
      elim (Bool-cases (is_terminal state)) [
        | inl over ↦ rw over (
            release_ip-Leased id
              (record s {
                tasks = insert id (record task { state = state; exit_code = exit_code }) s.tasks;
              })
              (OwnedBut-insert id (record task { state = state; exit_code = exit_code }) s.tasks
                s.ipam.allocated (λ k ip ne g. o k ip g)))
        | inr live ↦ rw live (
            Owned-insert id (record task { state = state }) s.tasks s.ipam.allocated
              (busy-holds state busy live) (λ k ip ne g. o k ip g))
      ]
