-- ===== src/Server/Api/Answers.antt =====
-- api.rs: what each status of a response says about the state.
use bigtop.Common.{
  ◌≡◌, refl, ◌∙◌, ◌⊎◌, Bool, true, false, none, some, arith, get, insert, is_some, Option-cases,
  Bool-cases, inl, inr, if◌then◌else◌, String,
}
use bigtop.Core.Ids.{TaskId}
use bigtop.Core.Error.{persistence, Result, ok, err}
use bigtop.Core.Types.{Task, is_terminal}
use bigtop.Core.Wire.{SetTaskStateRequest}
use bigtop.Server.Ipam.{release}
use bigtop.Server.Journal.{JournalOp, append as append_op}
use bigtop.Server.State.{StateInner, Exec, journal_op, and_then, pure}
use bigtop.Server.State.Tasks.{release_ip, with_state}
use bigtop.Server.Api.{AppState, Response, success, failure, respond, set_task_state}

-- What a response to a state change, and the state behind it, say.
pub data Answered (id : TaskId) (req : SetTaskStateRequest) (app : AppState)
    : Response (Unit {0}) × AppState → Type 0 where
  unknown :
      (message : String)
      → get id app.inner.tasks ≡ none
      → Answered id req app (failure 404 message, app)
  over :
      (message : String) (task : Task)
      → get id app.inner.tasks ≡ some task
      → is_terminal task.state ≡ true
      → Answered id req app (failure 409 message, app)
  unwritten :
      (message : String) (task : Task) (after : AppState)
      → get id app.inner.tasks ≡ some task
      → is_terminal task.state ≡ false
      → is_some app.inner.journal ≡ true
      → after.inner.tasks ≡ insert id (with_state task req.state req.exit_code) app.inner.tasks
      → Answered id req app (failure 500 message, after)
  done :
      (task : Task) (after : AppState)
      → get id app.inner.tasks ≡ some task
      → is_terminal task.state ≡ false
      → after.inner.tasks ≡ insert id (with_state task req.state req.exit_code) app.inner.tasks
      → Answered id req app (success 200 tt, after)

-- What the actions behind the checks do: they leave the tasks alone, and fail only on the journal.
record Written (s : StateInner) (r : Result (Unit {0}) × StateInner) : Type 0 where
  tasks : r.1.tasks ≡ s.tasks
  journal : is_some r.1.journal ≡ is_some s.journal
  blame :
      (r.0 ≡ ok tt)
      ⊎ ((message : String) × (r.0 ≡ err (persistence message)) × (is_some s.journal ≡ true))

journal_op-Written : (op : JournalOp) (s : StateInner) → Written s (journal_op op s)
unfolding journal_op
journal_op-Written op s = record {
  tasks = ground arith;
  journal = ground arith;
  blame = elim (Option-cases s.journal) [
    | inl silent ↦ inl (ground arith)
    | inr (w, on) ↦ elim (Option-cases (append_op w op).0) [
      | inl fine ↦ inl (ground arith)
      | inr (message, bad) ↦ inr (message, ground arith, ground arith)
    ]
  ];
}

release_ip-Written : (id : TaskId) (s : StateInner) → Written s (release_ip id s)
unfolding release_ip
release_ip-Written id s = elim (Bool-cases (release s.ipam id).0) [
  | inl freed ↦
      let w =
        journal_op-Written (JournalOp.ipam_release id)
          (record s { ipam = (release s.ipam id).1 }) in
      rw freed (record { tasks = w.tasks; journal = w.journal; blame = w.blame })
  | inr unheld ↦ rw unheld (record { tasks = refl; journal = refl; blame = inl refl })
]

freed-Written :
    (over : Bool) (id : TaskId) (s : StateInner)
    → Written s ((if over then release_ip id else pure tt) s)
freed-Written true id s = release_ip-Written id s
freed-Written false id s = record { tasks = refl; journal = refl; blame = inl refl }

-- One such action and then another.
and_then-Written :
    (s : StateInner) (r : Result (Unit {0}) × StateInner) (k : Exec (Unit {0}))
    → Written s r
    → ((u : StateInner) → Written u (k u))
    → Written s (and_then r λ _. k)
and_then-Written s (ok tt, u) k a b = record {
  tasks = (b u).tasks ∙ a.tasks;
  journal = (b u).journal ∙ a.journal;
  blame = ground (arith, (b u).blame, a.journal);
}
and_then-Written s (err e, u) k a b = a

-- The answer behind the checks.
done-Answered :
    (id : TaskId) (req : SetTaskStateRequest) (app : AppState) (task : Task) (s : StateInner)
    (r : Result (Unit {0}) × StateInner)
    → get id app.inner.tasks ≡ some task
    → is_terminal task.state ≡ false
    → s.tasks ≡ insert id (with_state task req.state req.exit_code) app.inner.tasks
    → s.journal ≡ app.inner.journal
    → Written s r
    → Answered id req app (respond 200 (λ _. tt) r.0, record app { inner = r.1 })
unfolding respond
done-Answered id req app task s r g live e j w = elim w.blame [
  | inl fine ↦ rw fine (Answered.done task (record app { inner = r.1 }) g live (w.tasks ∙ e))
  | inr (message, bad, on) ↦ rw bad (
      Answered.unwritten message task (record app { inner = r.1 }) g live (ground arith)
        (w.tasks ∙ e))
]

-- The response to a report of a task's state says what became of it: 404, the task is unknown, or
-- 409, it is over already, and nothing has changed; 500, there is a journal, and 200, and in both
-- cases the task was there and not over, and its new state is in the table of the tasks, which
-- differs in nothing else.
pub set_task_state-Answered :
    (id : TaskId) (req : SetTaskStateRequest) (app : AppState)
    → Answered id req app (set_task_state id req app)
unfolding set_task_state respond
set_task_state-Answered id req app = elim (Option-cases (get id app.inner.tasks)) [
  | inl missing ↦ rw missing (Answered.unknown _ missing)
  | inr (task, found) ↦ elim (Bool-cases (is_terminal task.state)) [
    | inl end ↦ rw (found, end) (Answered.over _ task found end)
    | inr live ↦
        rw (found, live)
          (done-Answered id req app task
            (record app.inner {
              tasks = insert id (with_state task req.state req.exit_code) app.inner.tasks;
            })
            _ found live refl refl
            (and_then-Written _ _ (journal_op (JournalOp.set_task_state id req.state req.exit_code))
              (freed-Written (is_terminal req.state) id _)
              (journal_op-Written (JournalOp.set_task_state id req.state req.exit_code))))
  ]
]
