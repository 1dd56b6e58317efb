-- ===== src/Server/Replay/Transitions.antt =====
-- The state changes of tasks and snapshots have journaled what they changed.
use bigtop.Common.{
  subst, ℕ, ◌≡◌, refl, sym, ap, ◌∙◌, Bool, true, false, Option, none, some, HashMap, get, insert,
  remove, arith, Option-cases, Bool-cases, inl, inr, remove_absent, get-remove, eq_iff,
  if◌then◌else◌,
}
use bigtop.Common.Int.{ℤ}
use bigtop.Core.Ids.{TaskId}
use bigtop.Core.Error.{Result, ok, err}
use bigtop.Core.Types.{Task, TaskState, is_terminal}
use bigtop.Server.Ipam.{Ipam, release}
use bigtop.Server.Journal.{JournalOp}
use bigtop.Server.State.{StateInner, and_then, pure, journal_op}
use bigtop.Server.State.Tasks.{release_ip, set_task_state, with_state}
use bigtop.Server.Replay.{apply_one}
use bigtop.Server.Replay.Same.{
  Same, Journaled, Extends, Extends-trans, Extends-step, Extends-silent,
}

-- ---------------------------------------------------------------- addresses

-- Releasing what is not held changes nothing.
release_unheld : (p : Ipam) (id : TaskId) → (release p id).0 ≡ false → (release p id).1 ≡ p
unfolding release
release_unheld p id h = ground (arith, remove_absent id p.allocated)

release_twice : (p : Ipam) (id : TaskId) → (release (release p id).1 id).1 ≡ (release p id).1
unfolding release
release_twice p id =
    ground
      (arith, get-remove id id p.allocated, eq_iff id id, remove_absent id (remove id p.allocated))

pub release_ip-ipam :
    (id : TaskId) (s : StateInner) → (release_ip id s).1.ipam ≡ (release s.ipam id).1
unfolding release_ip journal_op
release_ip-ipam id s = ground arith

pub release_ip-Extends :
    (now : ℕ) (id : TaskId) (s : StateInner)
    → Journaled s
    → (release_ip id s).0 ≡ ok tt
    → Extends now s (release_ip id s).1
unfolding release_ip apply_one
release_ip-Extends now id s j h = elim (Bool-cases (release s.ipam id).0) [
  | inl freed ↦ rw freed (
      Extends-step now (JournalOp.ipam_release id) s _ j refl (rw (freed, release_ip) at h)
        λ t same. record {
          jobs = same.jobs;
          tasks = same.tasks;
          snapshots = same.snapshots;
          ipam = ap (λ p. (release p id).1) same.ipam;
          nodes = same.nodes;
          parked = same.parked;
        })
  | inr unheld ↦ rw unheld (
      Extends-silent now s _ j refl λ t same. record {
        jobs = same.jobs;
        tasks = same.tasks;
        snapshots = same.snapshots;
        ipam = same.ipam ∙ sym (release_unheld s.ipam id unheld);
        nodes = same.nodes;
        parked = same.parked;
      })
]

-- It does not look at the tasks.
pub release_ip-tasks :
    (id : TaskId) (s : StateInner) (tasks : HashMap Task)
    → release_ip id (record s { tasks = tasks })
      ≡ ((release_ip id s).0, record (release_ip id s).1 { tasks = tasks })
unfolding release_ip journal_op
release_ip-tasks id s tasks = ground arith

-- ---------------------------------------------------------------- tasks

-- The address pool behind a state change.
abbrev after_state : TaskId → TaskState → Ipam → Ipam
after_state id state p = if is_terminal state then (release p id).1 else p

-- A state change during a replay, where nothing is journaled.
set_task_state-parked :
    (id : TaskId) (state : TaskState) (exit_code : Option ℤ) (t : StateInner) (task : Task)
    → t.journal ≡ none
    → get id t.tasks ≡ some task
    → is_terminal task.state ≡ false
    → (set_task_state id state exit_code t).1 ≡ record t {
      tasks = insert id (with_state task state exit_code) t.tasks;
      ipam = after_state id state t.ipam;
    }
unfolding set_task_state journal_op
set_task_state-parked id state exit_code t task parked found open' = ground arith

set_task_state-Same :
    (now : ℕ) (id : TaskId) (state : TaskState) (exit_code : Option ℤ) (s u t : StateInner)
    (task : Task)
    → get id s.tasks ≡ some task
    → is_terminal task.state ≡ false
    → u.tasks ≡ s.tasks
    → after_state id state u.ipam ≡ u.ipam
    → Same u t
    → Same
        (record u { tasks = insert id (with_state task state exit_code) s.tasks })
        (apply_one now t (JournalOp.set_task_state id state exit_code))
unfolding apply_one
set_task_state-Same now id state exit_code s u t task found open' same_tasks settled same =
    rw
      (set_task_state-parked id state exit_code t task same.parked (ground (arith, same.tasks))
        open')
      (record {
        jobs = same.jobs;
        tasks = ap (insert id (with_state task state exit_code)) (same.tasks ∙ same_tasks);
        snapshots = same.snapshots;
        ipam = ap (after_state id state) same.ipam ∙ settled;
        nodes = same.nodes;
        parked = same.parked;
      })

-- `release_ip` keeps the nodes and the tasks.
pub nodes-release_ip : (id : TaskId) (s : StateInner) → (release_ip id s).1.nodes ≡ s.nodes
unfolding release_ip journal_op
nodes-release_ip id s = ground arith

pub tasks-release_ip : (id : TaskId) (s : StateInner) → (release_ip id s).1.tasks ≡ s.tasks
unfolding release_ip journal_op
tasks-release_ip id s = ground arith

module _ (now : ℕ) (id : TaskId) (state : TaskState) (exit_code : Option ℤ) (s : StateInner)
    (task : Task) (j : Journaled s) (found : get id s.tasks ≡ some task)
    (open' : is_terminal task.state ≡ false) where
  abbrev op : JournalOp
  op = JournalOp.set_task_state id state exit_code

  abbrev new_tasks : HashMap Task
  new_tasks = insert id (with_state task state exit_code) s.tasks

  -- To a state that is not terminal.
  live-Extends :
      is_terminal state ≡ false
      → (journal_op op (record s { tasks = new_tasks })).0 ≡ ok tt
      → Extends now s (journal_op op (record s { tasks = new_tasks })).1
  live-Extends live h = Extends-step now op s _ j refl h λ t same.
      set_task_state-Same now id state exit_code s s t task found open' refl (rw live) same

  -- To a terminal state: the address is released and journaled first.
  terminal-Extends :
      (r : Result (Unit {0}) × StateInner)
      → is_terminal state ≡ true
      → release_ip id s ≡ r
      → (and_then (r.0, record r.1 { tasks = new_tasks }) (λ _. journal_op op)).0 ≡ ok tt
      → Extends now s (and_then (r.0, record r.1 { tasks = new_tasks }) (λ _. journal_op op)).1
  terminal-Extends (err e, u) final released h = absurd (ground arith)
  terminal-Extends (ok a, u) final released h =
      let first : Extends now s u =
        subst (λ q. Extends now s q.1) released
          (release_ip-Extends now id s j
            (ap (λ (q : Result (Unit {0}) × StateInner). q.0) released)) in
      let kept : u.tasks ≡ s.tasks =
        subst (λ q. q.1.tasks ≡ s.tasks) released (tasks-release_ip id s) in
      let freed : u.ipam ≡ (release s.ipam id).1 =
        subst (λ q. q.1.ipam ≡ (release s.ipam id).1) released (release_ip-ipam id s) in
      Extends-trans now s u _ first (
        Extends-step now op u _ first.attached refl h λ t same.
          set_task_state-Same now id state exit_code s u t task found open' kept
            (rw (final, freed) (release_twice s.ipam id)) same)

  -- What `set_task_state` does with an open task.
  abbrev finish : Bool → Result (Unit {0}) × StateInner
  finish final =
      and_then ((if final then release_ip id else pure tt) (record s { tasks = new_tasks }))
        (λ _. journal_op op)

  set_task_state-finish : set_task_state id state exit_code s ≡ finish (is_terminal state)
  unfolding set_task_state
  set_task_state-finish = rw (found, open')

  finish-Extends :
      (final : Bool)
      → is_terminal state ≡ final
      → (finish final).0 ≡ ok tt
      → Extends now s (finish final).1
  finish-Extends true e h =
      rw (release_ip-tasks id s new_tasks)
        (terminal-Extends (release_ip id s) e refl (rw (release_ip-tasks id s new_tasks) at h))
  finish-Extends false e h = live-Extends e h

-- A state change that succeeds, on a journaled state, has journaled what it changed: the journal
-- grew by entries whose replay, at whatever later time, takes every state that stands for the one
-- before to one that stands for the one behind. This includes the address that a terminal state
-- returns to the pool, which is journaled before the state.
pub set_task_state-Extends :
    (now : ℕ) (id : TaskId) (state : TaskState) (exit_code : Option ℤ) (s : StateInner)
    → Journaled s
    → (set_task_state id state exit_code s).0 ≡ ok tt
    → Extends now s (set_task_state id state exit_code s).1
unfolding set_task_state
set_task_state-Extends now id state exit_code s j h = elim (Option-cases (get id s.tasks)) [
  | inl missing ↦ absurd (ground arith)
  | inr (task, found) ↦ elim (Bool-cases (is_terminal task.state)) [
    | inl closed ↦ absurd (ground arith)
    | inr open' ↦
        let e = set_task_state-finish now id state exit_code s task j found open' in
        subst (λ r. Extends now s r.1) (sym e)
          (finish-Extends now id state exit_code s task j found open' (is_terminal state) refl
            (subst (λ r. r.0 ≡ ok tt) e h))
  ]
]
