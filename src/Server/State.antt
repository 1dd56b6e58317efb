-- ===== src/Server/State.antt =====
-- crates/bigtop-server/src/state.rs: the server's state, the effects of its operations, and the
-- journal hook. An operation on `&mut StateInner` that may fail is an action of `Exec`: what was
-- changed before an error stays changed.
pub mod Jobs
pub mod Nodes
pub mod Tasks
pub mod Snapshots
pub mod Logs
pub mod Tail
pub mod Reports
pub mod Views
pub mod Listings
pub mod Invariant
pub mod Preserves
pub mod Submits
use bigtop.Common.{ℕ, String, Bool, Option, none, some, List, [], HashMap}
use bigtop.Core.Ids.{JobId, TaskId}
use bigtop.Core.Error.{Error, persistence, Result, ok, err}
use bigtop.Core.Snapshots.{SnapshotRecord}
use bigtop.Core.Types.{Task, NodeInfo}
use bigtop.Server.Ipam
use bigtop.Server.Ipam.{Ipam}
use bigtop.Server.Journal.{JournalOp, JournalWriter, append}

pub record JobRecord : Type 0 where
  pub name : String
  pub created_at : ℕ

pub record StateInner : Type 0 where
  pub jobs : HashMap JobRecord
  pub tasks : HashMap Task
  pub nodes : HashMap NodeInfo
  pub logs : HashMap (List String)
  pub snapshots : HashMap SnapshotRecord
  pub ipam : Ipam
  pub journal : Option JournalWriter
  pub last_tick_ms : Option ℕ

-- `StateInner::default()`
abbrev pub default : StateInner
default = record {
  jobs = [];
  tasks = [];
  nodes = [];
  logs = [];
  snapshots = [];
  ipam = record { base0 = 172; base1 = 28; node_subnets = []; allocated = [] };
  journal = none;
  last_tick_ms = none;
}

abbrev pub Exec {ℓ} : Type ℓ → Type ℓ
Exec A = StateInner → Result A × StateInner

abbrev pub and_then {ℓ κ} :
    {A : Type ℓ} {B : Type κ} → Result A × StateInner → (A → Exec B) → Result B × StateInner
and_then (ok a, s) f = f a s
and_then (err e, s) f = (err e, s)

infixl 5 ◌>>=◌ ◌>>◌
abbrev pub ◌>>=◌ {ℓ κ} : {A : Type ℓ} {B : Type κ} → Exec A → (A → Exec B) → Exec B
◌>>=◌ m f s = and_then (m s) f

abbrev pub ◌>>◌ {ℓ} : {B : Type ℓ} → Exec (Unit {0}) → Exec B → Exec B
◌>>◌ m k s = and_then (m s) (λ _. k)

abbrev pub pure {ℓ} : {A : Type ℓ} → A → Exec A
pure a s = (ok a, s)

abbrev pub raise {ℓ} : {A : Type ℓ} → Error → Exec A
raise e s = (err e, s)

abbrev pub modify : (StateInner → StateInner) → Exec (Unit {0})
modify f s = (ok tt, f s)

abbrev pub gets {ℓ} : {A : Type ℓ} → (StateInner → A) → Exec A
gets f s = (ok (f s), s)

-- `opt.ok_or_else(|| e)?`
abbrev pub ok_or {ℓ} : {A : Type ℓ} → Option A → Error → Exec A
ok_or none e = raise e
ok_or (some a) e = pure a

-- `journal_op(inner, op).map_err(|e| journal_err(&e))`
journal_result : Option String × JournalWriter → StateInner → Result (Unit {0}) × StateInner
journal_result (none, w) s = (ok tt, record s { journal = some w })
journal_result (some message, w) s = (err (persistence message), record s { journal = some w })

unfoldable pub journal_op : JournalOp → Exec (Unit {0})
unfolding append journal_result
journal_op op s = elim s.journal [ none ↦ (ok tt, s) | some w ↦ journal_result (append w op) s ]
