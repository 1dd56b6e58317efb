-- ===== src/Agent/Polling/Polled.antt =====
-- lib.rs: which tasks a round of the poll loop starts.
use bigtop.Common.{
  ◌≡◌, refl, sym, ◌∙◌, subst, Bool, true, false, ◌||◌, ◌&&◌, not, List, [], ◌∷◌, ◌==◌, eq_iff, All,
  All-imp, Bool-cases, inl, inr, arith, map, get, insert, get-insert, HashMap, contains_key,
}
use bigtop.Common.Distinct.{Distinct}
use bigtop.Core.Ids.{TaskId}
use bigtop.Core.Types.{Task}
use bigtop.Agent.Firecracker.Machine.{ok}
use bigtop.Agent.Requests.{spawn_new}
use bigtop.Agent.Polling.{Polling, Round, spawned, poll, retain}

-- The loop holds a handle of the task.
abbrev Holds : TaskId → HashMap (Unit {0}) → Type 0
Holds id running = contains_key id running ≡ true

-- What a poll starts did not run, is started once, and is held behind it, and so is all that ran.
record Started (running : HashMap (Unit {0})) (out : List TaskId) (after : HashMap (Unit {0}))
    : Type 0 where
  distinct : Distinct out
  new : All (λ id. contains_key id running ≡ false) out
  kept : (id : TaskId) → Holds id running → Holds id after
  held : All (λ id. Holds id after) out

abbrev task_ids : List Task → List TaskId
task_ids tasks = map (λ t. t.id) tasks

contains-insert :
    (id k : TaskId) (running : HashMap (Unit {0}))
    → contains_key k (insert id tt running) ≡ ((id == k) || contains_key k running)
contains-insert id k running = ground (arith, get-insert id k tt running)

Started-cons :
    (id : TaskId) (running : HashMap (Unit {0})) (out : List TaskId) (after : HashMap (Unit {0}))
    → contains_key id running ≡ false
    → Started (insert id tt running) out after
    → Started running (id ∷ out) after
Started-cons id running out after fresh s = record {
  distinct = (
    All-imp _ _ out (λ k h e. ground (arith, contains-insert id k running, eq_iff id k)) s.new,
    s.distinct,
  );
  new = (fresh, All-imp _ _ out (λ k h. ground (arith, contains-insert id k running)) s.new);
  kept = λ k h. s.kept k (ground (arith, contains-insert id k running));
  held = (s.kept id (ground (arith, contains-insert id id running, eq_iff id id)), s.held);
}

spawn_new-Started :
    (tasks : List Task) (running : HashMap (Unit {0}))
    → Started running (task_ids (spawn_new tasks running).0) (spawn_new tasks running).1
unfolding spawn_new
spawn_new-Started [] running = record { distinct = tt; new = tt; kept = λ id h. h; held = tt }
spawn_new-Started (task ∷ tasks) running = elim (Bool-cases (contains_key task.id running)) [
  | inl old ↦ rw old (spawn_new-Started tasks running)
  | inr fresh ↦
      rw fresh (
        Started-cons task.id running _ _ fresh
          (spawn_new-Started tasks (insert task.id tt running)))
]

spawn_new_old :
    (task : Task) (tasks : List Task) (running : HashMap (Unit {0}))
    → contains_key task.id running ≡ true
    → (spawn_new (task ∷ tasks) running).1 ≡ (spawn_new tasks running).1
unfolding spawn_new
spawn_new_old task tasks running h = rw h refl

spawn_new_fresh :
    (task : Task) (tasks : List Task) (running : HashMap (Unit {0}))
    → contains_key task.id running ≡ false
    → (spawn_new (task ∷ tasks) running).1 ≡ (spawn_new tasks (insert task.id tt running)).1
unfolding spawn_new
spawn_new_fresh task tasks running h = rw h refl

-- Every task that is listed is held behind the poll.
spawn_new-held :
    (tasks : List Task) (running : HashMap (Unit {0}))
    → All (λ t. Holds t.id (spawn_new tasks running).1) tasks
spawn_new-held [] running = tt
spawn_new-held (task ∷ tasks) running = elim (Bool-cases (contains_key task.id running)) [
  | inl old ↦
      subst (λ m. All (λ t. Holds t.id m) (task ∷ tasks))
        (sym (spawn_new_old task tasks running old))
        ((spawn_new-Started tasks running).kept task.id old, spawn_new-held tasks running)
  | inr fresh ↦
      subst (λ m. All (λ t. Holds t.id m) (task ∷ tasks))
        (sym (spawn_new_fresh task tasks running fresh))
        (
          (spawn_new-Started tasks (insert task.id tt running)).kept task.id
              (ground (arith, contains-insert task.id task.id running, eq_iff task.id task.id)),
          spawn_new-held tasks (insert task.id tt running),
        )
]

retain_self :
    (finished : TaskId → Bool) (j : TaskId) (u : Unit {0}) (running : HashMap (Unit {0}))
    → contains_key j (retain finished running) ≡ (not (finished j) && contains_key j running)
    → contains_key j (retain finished ((j, u) ∷ running))
      ≡ (not (finished j) && contains_key j ((j, u) ∷ running))
unfolding retain get
retain_self finished j u running h = ground (arith, eq_iff j j, h)

contains-retain :
    (finished : TaskId → Bool) (k : TaskId) (running : HashMap (Unit {0}))
    → contains_key k (retain finished running) ≡ (not (finished k) && contains_key k running)
unfolding retain get
contains-retain finished k [] = ground arith
contains-retain finished k ((j, u) ∷ running) = elim (Bool-cases (j == k)) [
  | inl same ↦
      subst
        (λ x.
          contains_key x (retain finished ((j, u) ∷ running))
          ≡ (not (finished x) && contains_key x ((j, u) ∷ running)))
        ((eq_iff j k).0 same)
        (retain_self finished j u running (contains-retain finished j running))
  | inr other ↦ ground (arith, contains-retain finished k running)
]

All-unmap {ℓ κ μ} :
    {A : Type ℓ} {B : Type κ} (P : B → Type μ) (f : A → B) (xs : List A)
    → All P (map f xs)
    → All (λ x. P (f x)) xs
All-unmap P f [] h = tt
All-unmap P f (x ∷ xs) h = (h.0, All-unmap P f xs h.1)

-- What a poll does with the tasks that it was given.
pub record Polled (round : Round) (tasks : List Task) (p : Polling) : Type 0 where
  pub distinct : Distinct (map (λ t. t.id) (poll round p).0)
  pub new :
      All (λ t. (not (round.finished t.id) && contains_key t.id p.running) ≡ false) (poll round p).0
  pub kept :
      (id : TaskId)
      → round.finished id ≡ false
      → contains_key id p.running ≡ true
      → contains_key id (poll round p).2.running ≡ true
  pub held : All (λ t. contains_key t.id (poll round p).2.running ≡ true) tasks

poll_started :
    (round : Round) (tasks : List Task) (p : Polling)
    → round.assignments ≡ ok tasks
    → (poll round p).0 ≡ (spawn_new tasks (retain round.finished p.running)).0
unfolding poll spawned
poll_started round tasks p h = rw (h, spawned)

poll_running :
    (round : Round) (tasks : List Task) (p : Polling)
    → round.assignments ≡ ok tasks
    → (poll round p).2.running ≡ (spawn_new tasks (retain round.finished p.running)).1
unfolding poll spawned
poll_running round tasks p h = rw (h, spawned)

-- A poll that is answered starts no task twice and none whose earlier execution still runs; all that
-- still runs is held behind it, and so is every task that was listed.
pub poll-Polled :
    (round : Round) (tasks : List Task) (p : Polling)
    → round.assignments ≡ ok tasks
    → Polled round tasks p
poll-Polled round tasks p h = record {
  distinct = subst (λ ts. Distinct (task_ids ts)) (sym started) s.distinct;
  new =
      subst (All (λ t. (not (round.finished t.id) && contains_key t.id p.running) ≡ false))
        (sym started)
        (All-imp _ _ _ (λ t k. sym (contains-retain round.finished t.id p.running) ∙ k)
          (All-unmap (λ id. contains_key id before ≡ false) (λ t. t.id) _ s.new));
  kept = λ id busy k.
      subst (Holds id) (sym after)
        (s.kept id (ground (arith, contains-retain round.finished id p.running)));
  held = subst (λ m. All (λ t. Holds t.id m) tasks) (sym after) (spawn_new-held tasks before);
}
  where
    before : HashMap (Unit {0})
    before = retain round.finished p.running

    s : Started before (task_ids (spawn_new tasks before).0) (spawn_new tasks before).1
    s = spawn_new-Started tasks before

    started : (poll round p).0 ≡ (spawn_new tasks before).0
    started = poll_started round tasks p h

    after : (poll round p).2.running ≡ (spawn_new tasks before).1
    after = poll_running round tasks p h
