-- ===== src/Server/Lifecycle/Onward.antt =====
-- state.rs: what each operation does to the tasks, whether it succeeds or fails.
use bigtop.Common.{
  ℕ, Bool, ◌≡◌, refl, sym, subst, true, false, none, Option, List, [], ◌∷◌, HashMap, get, arith,
  Bool-cases, inl, inr, All, if◌then◌else◌,
}
use bigtop.Common.Int.{ℤ}
use bigtop.Core.Ids.{JobId, TaskId}
use bigtop.Core.Types.{NodeInfo, Task, TaskState, JobSpec, is_terminal}
use bigtop.Server.Ipam.{Ipam}
use bigtop.Server.State.{StateInner, pure}
use bigtop.Server.State.Jobs.{create_job, insert_tasks, expand}
use bigtop.Server.State.Tasks.{set_task_state, with_state, release_ip}
use bigtop.Server.State.Submits.{expand-All}
use bigtop.Server.Replay.Transitions.{tasks-release_ip}
use bigtop.Server.Lifecycle.{Later, Moves, Moves-refl, Moves-insert, Moves-new}
use bigtop.Server.Lifecycle.Frames.{create_job-At, set_task_state-At}

-- Nothing of the old table is lost, whatever the nodes and the addresses.
abbrev pub Onto : HashMap Task → HashMap NodeInfo → HashMap Task → Ipam → Type 0
Onto old nodes tasks ipam = Moves old tasks

abbrev pub Onward : StateInner → StateInner → Type 0
Onward s u = Moves s.tasks u.tasks

insert_tasks-Moves :
    (old : HashMap Task) (tasks : List Task) (u : StateInner)
    → All (λ t. get t.id old ≡ none) tasks
    → Moves old u.tasks
    → Moves old (insert_tasks tasks u).tasks
unfolding insert_tasks
insert_tasks-Moves old [] u new h = h
insert_tasks-Moves old (t ∷ tasks) u new h =
    insert_tasks-Moves old tasks _ new.1 (Moves-new t.id t old u.tasks new.0 refl h)

pub create_job-Onward :
    (spec : JobSpec) (job_id : JobId) (fresh : ℕ → TaskId) (now : ℕ) (s : StateInner)
    → ((n : ℕ) → get (fresh n) s.tasks ≡ none)
    → Onward s (create_job spec job_id fresh now s).1
create_job-Onward spec job_id fresh now s new =
    create_job-At (Onto s.tasks) s (Moves-refl s.tasks) spec job_id fresh now (
      insert_tasks-Moves s.tasks (expand job_id fresh 0 spec.tasks) s
        (expand-All (λ t. get t.id s.tasks ≡ none) job_id fresh (λ one. new) 0 spec.tasks)
        (Moves-refl s.tasks))

-- What a report makes of a task that is not over.
reported-Later :
    (task : Task) (state : TaskState) (exit_code : Option ℤ)
    → is_terminal task.state ≡ false
    → Later task (with_state task state exit_code)
reported-Later task state exit_code open' = elim (Bool-cases (is_terminal state)) [
  | inl final ↦
      rw (final, with_state)
        (record {
          id = refl;
          job = refl;
          name = refl;
          spec = refl;
          final = λ over. absurd (ground arith);
        })
  | inr live ↦
      rw (live, with_state)
        (record {
          id = refl;
          job = refl;
          name = refl;
          spec = refl;
          final = λ over. absurd (ground arith);
        })
]

pub set_task_state-Onward :
    (id : TaskId) (state : TaskState) (exit_code : Option ℤ) (s : StateInner)
    → Onward s (set_task_state id state exit_code s).1
set_task_state-Onward id state exit_code s =
    set_task_state-At (Onto s.tasks) s (Moves-refl s.tasks) id state exit_code λ task found open'.
      freed (is_terminal state) _ (
        Moves-insert id task (with_state task state exit_code) s.tasks found
          (reported-Later task state exit_code open'))
  where
    freed :
        (b : Bool) (u : StateInner)
        → Onward s u
        → Onward s ((if b then release_ip id else pure tt) u).1
    freed true u h = subst (Moves s.tasks) (sym (tasks-release_ip id u)) h
    freed false u h = h
