-- ===== src/Server/Lifecycle/Passes.antt =====
-- scheduler.rs: a scheduling pass leaves the tasks that are over alone.
use bigtop.Common.{
  get-insert_inv, none, some-eq, ℕ, ◌≡◌, refl, sym, subst, true, false, some, List, [], ◌∷◌,
  HashMap, get, get-insert, insert, arith, inl, inr, All, All-imp, All-map, All-filter, All-values,
  values, Option-cases,
}
use bigtop.Core.Ids.{TaskId, NodeId}
use bigtop.Core.Error.{Result}
use bigtop.Core.Types.{Task, TaskState, is_terminal, is_pending, holds_resources}
use bigtop.Server.State.{StateInner, Exec, and_then, journal_op}
use bigtop.Server.Journal.{JournalOp}
use bigtop.Server.State.Tasks.{release_ip}
use bigtop.Server.State.Preserves.{tasks-journal_op, and_then-P}
use bigtop.Server.Scheduler.{
  requeue_dead_nodes, orphans, dead_nodes, for_each, requeue, requeued, update_task,
}
use bigtop.Server.Replay.Transitions.{tasks-release_ip}
use bigtop.Server.Lifecycle.{
  Later, Moves, Moves-refl, Moves-trans, Moves-insert, TasksById, some-eq,
}

-- A task under this id is not over.
abbrev pub Live : TaskId → HashMap Task → Type 0
Live k tasks = (a : Task) → get k tasks ≡ some a → is_terminal a.state ≡ false

-- A task that waits is on no node.
abbrev pub Waits : Task → Type 0
Waits a = is_pending a.state ≡ true → a.assigned_node ≡ none

abbrev pub AllWait : HashMap Task → Type 0
AllWait tasks = (k : TaskId) (a : Task) → get k tasks ≡ some a → Waits a

pub AllWait-insert :
    (id : TaskId) (b : Task) (tasks : HashMap Task)
    → Waits b
    → AllWait tasks
    → AllWait (insert id b tasks)
AllWait-insert id b tasks w h k c g = elim (get-insert_inv id k b c tasks g) [
  | inl own ↦ subst Waits own.1 w
  | inr old ↦ h k c old
]

-- No task is lost, and none comes to its end.
pub record Passes (old new : HashMap Task) : Type 0 where
  pub moves : Moves old new
  pub live : (k : TaskId) → Live k old → Live k new
  pub waits : AllWait old → AllWait new

pub Passes-refl : (tasks : HashMap Task) → Passes tasks tasks
Passes-refl tasks = record { moves = Moves-refl tasks; live = λ k h. h; waits = λ w. w }

pub Passes-trans : (x y z : HashMap Task) → Passes x y → Passes y z → Passes x z
Passes-trans x y z h k = record {
  moves = Moves-trans x y z h.moves k.moves;
  live = λ id l. k.live id (h.live id l);
  waits = λ w. k.waits (h.waits w);
}

pub Passes-insert :
    (id : TaskId) (a b : Task) (tasks : HashMap Task)
    → get id tasks ≡ some a
    → Later a b
    → is_terminal b.state ≡ false
    → Waits b
    → Passes tasks (insert id b tasks)
Passes-insert id a b tasks g l open' w = record {
  moves = Moves-insert id a b tasks g l;
  live = λ k h c e. ground (arith, get-insert id k b tasks, h c);
  waits = λ h. AllWait-insert id b tasks w h;
}

pub and_then-Passes {ℓ κ} :
    {A : Type ℓ} {B : Type κ} (old : HashMap Task) (r : Result A × StateInner) (f : A → Exec B)
    → Passes old r.1.tasks
    → ((a : A) → Passes r.1.tasks (f a r.1).1.tasks)
    → Passes old (and_then r f).1.tasks
and_then-Passes old r f h k =
    and_then-P (λ s. Passes old s.tasks) r f h (λ a. Passes-trans old r.1.tasks _ h (k a))

pub journal_op-Passes : (op : JournalOp) (s : StateInner) → Passes s.tasks (journal_op op s).1.tasks
journal_op-Passes op s = subst (Passes s.tasks) (sym (tasks-journal_op op s)) (Passes-refl s.tasks)

-- A loop over tasks that are not over.
pub for_each-Passes :
    (body : TaskId → Exec (Unit {0}))
    → ((id : TaskId) (s : StateInner) → Live id s.tasks → Passes s.tasks (body id s).1.tasks)
    → (ids : List TaskId) (s : StateInner) → All (λ id. Live id s.tasks) ids
    → Passes s.tasks (for_each body ids s).1.tasks
for_each-Passes body step [] s h = Passes-refl s.tasks
for_each-Passes body step (id ∷ ids) s h =
    let first = step id s h.0 in
    and_then-Passes s.tasks (body id s) _ first (λ _. for_each-Passes body step ids (body id s).1 (
      All-imp (λ k. Live k s.tasks) (λ k. Live k (body id s).1.tasks) ids (λ k l. first.live k l)
        h.1))

-- ---------------------------------------------------------------- requeueing

requeued-Passes :
    (id : TaskId) (tasks : HashMap Task)
    → Live id tasks
    → Passes tasks (update_task id requeued tasks)
unfolding is_terminal
requeued-Passes id tasks l = elim (Option-cases (get id tasks)) [
  | inl missing ↦ rw (missing, update_task) (Passes-refl tasks)
  | inr (a, found) ↦
      rw (found, update_task)
        (Passes-insert id a (requeued a) tasks found
          (record {
            id = refl;
            job = refl;
            name = refl;
            spec = refl;
            final = λ over. absurd (ground (arith, l a found));
          })
          refl (λ _. refl))
]

requeue-Passes :
    (id : TaskId) (s : StateInner) → Live id s.tasks → Passes s.tasks (requeue id s).1.tasks
unfolding requeue
requeue-Passes id s l =
    and_then-Passes s.tasks (release_ip id after) (λ _. journal_op (JournalOp.task_requeued id))
      (subst (Passes s.tasks) (sym (tasks-release_ip id after)) (requeued-Passes id s.tasks l))
      (λ _. journal_op-Passes (JournalOp.task_requeued id) (release_ip id after).1)
  where
    after : StateInner
    after = record s { tasks = update_task id requeued s.tasks }

held-Live : (state : TaskState) → holds_resources state ≡ true → is_terminal state ≡ false
unfolding holds_resources is_terminal
held-Live state h = ground arith

pub waiting-Live : (state : TaskState) → is_pending state ≡ true → is_terminal state ≡ false
unfolding is_pending is_terminal
waiting-Live state h = ground arith

orphans-Live :
    (dead : List NodeId) (s : StateInner)
    → TasksById s.tasks
    → All (λ id. Live id s.tasks) (orphans dead s)
unfolding orphans
orphans-Live dead s v =
    All-map _ (λ t. t.id) _
      (All-imp _ _ _ (λ t h a g. ground (arith, some-eq h.0 g, held-Live t.state))
        (All-filter (λ t. get t.id s.tasks ≡ some t) _ (values s.tasks)
          (All-values _ s.tasks v.unique
            λ k t g. subst (λ i. get i s.tasks ≡ some t) (sym (v.filed k t g)) g)))

pub requeue_dead_nodes-Passes :
    (now : ℕ) (s : StateInner)
    → TasksById s.tasks
    → Passes s.tasks (requeue_dead_nodes now s).1.tasks
unfolding requeue_dead_nodes
requeue_dead_nodes-Passes now s v = go (dead_nodes now s) refl
  where
    go :
        (dead : List NodeId)
        → dead_nodes now s ≡ dead
        → Passes s.tasks (requeue_dead_nodes now s).1.tasks
    go [] e = rw (e, requeue_dead_nodes) (Passes-refl s.tasks)
    go (node ∷ dead) e =
        rw (e, requeue_dead_nodes)
          (for_each-Passes requeue requeue-Passes (orphans (node ∷ dead) s) s
            (orphans-Live (node ∷ dead) s v))
