-- ===== src/Server/State/Preserves.antt =====
-- The operations of state.rs keep the invariant, whether they succeed or fail.
use bigtop.Common.{
  UniqueKeys, UniqueKeys-insert, ℕ, ◌≡◌, refl, sym, subst, Bool, true, false, Option, none, some,
  List, get, insert, arith, Bool-cases, inl, inr, String, if◌then◌else◌,
}
use bigtop.Common.Int.{ℤ}
use bigtop.Core.Ids.{TaskId, NodeId}
use bigtop.Core.Error.{Error, Result, ok, err}
use bigtop.Core.Network.{Ipv4Addr}
use bigtop.Core.Resources.{Resources}
use bigtop.Core.Types.{Task, TaskState, is_pending, is_terminal}
use bigtop.Server.Ipam.{release}
use bigtop.Server.Ipam.Valid.{Valid, release-Valid}
use bigtop.Server.Journal.{JournalOp}
use bigtop.Server.State.{StateInner, Exec, and_then, pure, ok_or, journal_op}
use bigtop.Server.State.Nodes.{register_node, heartbeat}
use bigtop.Server.State.Tasks.{release_ip, set_task_state, with_state}
use bigtop.Server.State.Logs.{push_logs}
use bigtop.Server.State.Invariant.{
  Inv, NodesById, NodesById-insert, PendingFree-release, PendingFree-insert,
}

abbrev pub Keeps {ℓ} : {A : Type ℓ} → Exec A → Type 0
Keeps m = (s : StateInner) → Inv s → Inv (m s).1

-- The invariant is about three fields.
pub Inv-same :
    (s u : StateInner) → u.nodes ≡ s.nodes → u.ipam ≡ s.ipam → u.tasks ≡ s.tasks → Inv s → Inv u
Inv-same s u n p t v = record {
  nodes = subst NodesById (sym n) v.nodes;
  ipam = subst Valid (sym p) v.ipam;
  tasks = subst UniqueKeys (sym t) v.tasks;
  waiting = rw (t, p) v.waiting;
}

-- What holds of the state behind each part holds of the state behind the whole.
pub and_then-P {ℓ κ μ} :
    (P : StateInner → Type μ) {A : Type ℓ} {B : Type κ} (r : Result A × StateInner) (f : A → Exec B)
    → P r.1
    → ((a : A) → P (f a r.1).1)
    → P (and_then r f).1
and_then-P P (ok a, u) f h keep = keep a
and_then-P P (err e, u) f h keep = h

pub and_then-Inv {ℓ κ} :
    {A : Type ℓ} {B : Type κ} (r : Result A × StateInner) (f : A → Exec B)
    → Inv r.1
    → ((a : A) → Keeps (f a))
    → Inv (and_then r f).1
and_then-Inv r f v keep = and_then-P Inv r f v (λ a. keep a r.1 v)

pub pure-Keeps {ℓ} : {A : Type ℓ} (a : A) → Keeps (pure a)
pure-Keeps a s v = v

pub journal_op-Keeps : (op : JournalOp) → Keeps (journal_op op)
unfolding journal_op
journal_op-Keeps op s v =
    Inv-same s (journal_op op s).1 (ground arith) (ground arith) (ground arith) v

pub tasks-journal_op : (op : JournalOp) (s : StateInner) → (journal_op op s).1.tasks ≡ s.tasks
unfolding journal_op
tasks-journal_op op s = ground arith

pub nodes-journal_op : (op : JournalOp) (s : StateInner) → (journal_op op s).1.nodes ≡ s.nodes
unfolding journal_op
nodes-journal_op op s = ground arith

pub ok_or-P {ℓ κ μ} :
    (P : StateInner → Type μ) {A : Type ℓ} {B : Type κ} (o : Option A) (e : Error) (f : A → Exec B)
    (s : StateInner)
    → P s
    → ((a : A) → o ≡ some a → P (f a s).1)
    → P (and_then (ok_or o e s) f).1
ok_or-P P none e f s v keep = v
ok_or-P P (some a) e f s v keep = keep a refl

pub ok_or-Inv {ℓ κ} :
    {A : Type ℓ} {B : Type κ} (o : Option A) (e : Error) (f : A → Exec B) (s : StateInner)
    → Inv s
    → ((a : A) → o ≡ some a → Inv (f a s).1)
    → Inv (and_then (ok_or o e s) f).1
ok_or-Inv = ok_or-P Inv

pub release_ip-Keeps : (id : TaskId) → Keeps (release_ip id)
unfolding release_ip
release_ip-Keeps id s v = elim (Bool-cases (release s.ipam id).0) [
  | inl freed ↦ rw freed (journal_op-Keeps (JournalOp.ipam_release id) _ after)
  | inr unheld ↦ rw unheld after
]
  where
    after : Inv (record s { ipam = (release s.ipam id).1 })
    after = record {
      nodes = v.nodes;
      ipam = release-Valid s.ipam id v.ipam;
      tasks = v.tasks;
      waiting = PendingFree-release id s.tasks s.ipam v.waiting;
    }

-- A change to any state but `pending` keeps the invariant of the server's state, whatever its
-- result: nodes are filed under their ids, keys are unique, the allocator is valid, and a pending
-- task holds no address.
pub set_task_state-Inv :
    (id : TaskId) (state : TaskState) (exit_code : Option ℤ)
    → is_pending state ≡ false
    → (s : StateInner) → Inv s
    → Inv (set_task_state id state exit_code s).1
unfolding set_task_state
set_task_state-Inv id state exit_code busy s v = ok_or-Inv (get id s.tasks) _ _ s v λ task found.
    elim (Bool-cases (is_terminal task.state)) [
      | inl closed ↦ rw closed v
      | inr open' ↦ rw open' (
          and_then-Inv ((if is_terminal state then release_ip id else pure tt) (changed task)) _
            (freed task (is_terminal state)) λ a. journal_op-Keeps _)
    ]
  where
    changed : Task → StateInner
    changed task = record s { tasks = insert id (with_state task state exit_code) s.tasks }

    changed-Inv : (task : Task) → Inv (changed task)
    changed-Inv task = record {
      nodes = v.nodes;
      ipam = v.ipam;
      tasks = UniqueKeys-insert id _ s.tasks v.tasks;
      waiting = PendingFree-insert id _ s.tasks s.ipam (ground arith) v.waiting;
    }

    freed : (task : Task) (b : Bool) → Inv ((if b then release_ip id else pure tt) (changed task)).1
    freed task true = release_ip-Keeps id (changed task) (changed-Inv task)
    freed task false = changed-Inv task

pub register_node-Inv :
    (id : NodeId) (name addr : String) (total : Resources) (ip : Option Ipv4Addr) (now : ℕ)
    → (s : StateInner) → Inv s
    → Inv (register_node id name addr total ip now s).1
unfolding register_node
register_node-Inv id name addr total ip now s v =
    and_then-Inv (journal_op _ _) _
      (journal_op-Keeps _ _ (record {
        nodes = NodesById-insert id _ s.nodes refl v.nodes;
        ipam = v.ipam;
        tasks = v.tasks;
        waiting = v.waiting;
      }))
      λ a. pure-Keeps id

pub heartbeat-Inv :
    (id : NodeId) (ip : Option Ipv4Addr) (now : ℕ)
    → (s : StateInner) → Inv s
    → Inv (heartbeat id ip now s).1
unfolding heartbeat
heartbeat-Inv id ip now s v = ok_or-Inv (get id s.nodes) _ _ s v λ node found. record {
  nodes = NodesById-insert id _ s.nodes (v.nodes.filed id node found) v.nodes;
  ipam = v.ipam;
  tasks = v.tasks;
  waiting = v.waiting;
}

pub push_logs-Keeps : (id : TaskId) (new : List String) → Keeps (push_logs id new)
unfolding push_logs
push_logs-Keeps id new s v =
    ok_or-Inv (get id s.logs) _ _ s v
      λ buf found. record { nodes = v.nodes; ipam = v.ipam; tasks = v.tasks; waiting = v.waiting }
