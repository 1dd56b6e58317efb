-- ===== src/Server/Lifecycle.antt =====
-- state.rs and scheduler.rs together: what may become of a task between two states of the server.
pub mod Passes
pub mod Placements
pub mod Owners
pub mod Leases
pub mod Frames
pub mod Onward
pub mod Leasing
pub mod Steady
pub mod Room
pub mod Calls
use bigtop.Common.{
  some-eq, ◌≡◌, refl, sym, ap, ◌∙◌, subst, true, false, none, some, Option, List, [], HashMap,
  String, get, get-insert, insert, arith, eq_iff, UniqueKeys, UniqueKeys-insert, ◌==◌, Bool-cases,
  inl, inr,
}
use bigtop.Core.Ids.{TaskId}
use bigtop.Core.Types.{Task, TaskSpec, is_terminal}

-- The specification without the variables, to which a placement adds the discovered services.
abbrev pub fixed : TaskSpec → TaskSpec
fixed spec = record spec { env = [] }

-- `b` is the same task as `a` at a later time.
pub record Later (a b : Task) : Type 0 where
  pub id : b.id ≡ a.id
  pub job : b.job_id ≡ a.job_id
  pub name : b.name ≡ a.name
  pub spec : fixed b.spec ≡ fixed a.spec
  pub final : is_terminal a.state ≡ true → b ≡ a

Later-refl : (a : Task) → Later a a
Later-refl a = record { id = refl; job = refl; name = refl; spec = refl; final = λ h. refl }

Later-trans : (a b c : Task) → Later a b → Later b c → Later a c
Later-trans a b c h k = record {
  id = k.id ∙ h.id;
  job = k.job ∙ h.job;
  name = k.name ∙ h.name;
  spec = k.spec ∙ h.spec;
  final =
      λ over. let same = h.final over in k.final (ap (λ t. is_terminal t.state) same ∙ over) ∙ same;
}

-- What a table of tasks makes of a task.
pub record Survives (id : TaskId) (a : Task) (tasks : HashMap Task) : Type 0 where
  pub task : Task
  pub here : get id tasks ≡ some task
  pub later : Later a task

-- Every task is filed once, under its id.
pub record TasksById (tasks : HashMap Task) : Type 0 where
  pub unique : UniqueKeys tasks
  pub filed : (k : TaskId) (task : Task) → get k tasks ≡ some task → task.id ≡ k

-- No task is lost between the two tables.
pub record Moves (old new : HashMap Task) : Type 0 where
  pub survive : (k : TaskId) (a : Task) → get k old ≡ some a → Survives k a new
  pub by_id : TasksById old → TasksById new

pub Moves-refl : (tasks : HashMap Task) → Moves tasks tasks
Moves-refl tasks = record {
  survive = λ k a g. record { task = a; here = g; later = Later-refl a };
  by_id = λ v. v;
}

pub Moves-trans : (x y z : HashMap Task) → Moves x y → Moves y z → Moves x z
Moves-trans x y z h k = record {
  survive = λ id a g.
      let b = h.survive id a g in
      let c = k.survive id b.task b.here in
      record { task = c.task; here = c.here; later = Later-trans a b.task c.task b.later c.later };
  by_id = λ v. k.by_id (h.by_id v);
}

pub TasksById-insert :
    (id : TaskId) (b : Task) (tasks : HashMap Task)
    → b.id ≡ id
    → TasksById tasks
    → TasksById (insert id b tasks)
TasksById-insert id b tasks own v = record {
  unique = UniqueKeys-insert id b tasks v.unique;
  filed = λ k c h. ground (arith, get-insert id k b tasks, eq_iff id k, v.filed k c);
}

-- A task that is there is replaced by what becomes of it.
pub Moves-insert :
    (id : TaskId) (a b : Task) (tasks : HashMap Task)
    → get id tasks ≡ some a
    → Later a b
    → Moves tasks (insert id b tasks)
Moves-insert id a b tasks g l = record {
  survive = λ k c h. elim (Bool-cases (id == k)) [
    | inl same ↦ record {
      task = b;
      here = get-insert id k b tasks ∙ rw same refl;
      later =
          subst (λ t. Later t b)
            (some-eq g (subst (λ i. get i tasks ≡ some c) (sym ((eq_iff id k).0 same)) h)) l;
    }
    | inr other ↦ record {
      task = c;
      here = get-insert id k b tasks ∙ rw other h;
      later = Later-refl c;
    }
  ];
  by_id = λ v. TasksById-insert id b tasks (l.id ∙ v.filed id a g) v;
}

-- A new task is filed under an id that the old table does not have.
pub Moves-new :
    (id : TaskId) (b : Task) (old tasks : HashMap Task)
    → get id old ≡ none
    → b.id ≡ id
    → Moves old tasks
    → Moves old (insert id b tasks)
Moves-new id b old tasks g own h = record {
  survive = λ k a e. elim (Bool-cases (id == k)) [
    | inl same ↦ absurd (ground (arith, eq_iff id k))
    | inr other ↦
        let s = h.survive k a e in
        record { task = s.task; here = get-insert id k b tasks ∙ rw other s.here; later = s.later }
  ];
  by_id = λ v. TasksById-insert id b tasks own (h.by_id v);
}
