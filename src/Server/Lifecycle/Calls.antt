-- ===== src/Server/Lifecycle/Calls.antt =====
-- state.rs and scheduler.rs: any calls of the server's operations, whether they succeed or fail.
use bigtop.Common.{false, [], Bool, true, not, ℕ, ◌≡◌, none, some, Option, List, String, get, arith}
use bigtop.Common.Int.{ℤ}
use bigtop.Core.Ids.{JobId, TaskId, NodeId, SnapshotId}
use bigtop.Core.Network.{Ipv4Addr}
use bigtop.Core.Resources.{Resources}
use bigtop.Core.Types.{is_pending, Task, TaskState, JobSpec}
use bigtop.Core.Wire.{RequestSnapshotRequest, ReportSnapshotResult}
use bigtop.Server.State.{StateInner}
use bigtop.Server.State.Jobs.{create_job}
use bigtop.Server.State.Nodes.{register_node, heartbeat}
use bigtop.Server.State.Tasks.{set_task_state}
use bigtop.Server.State.Snapshots.{request_snapshot, report_snapshot_result}
use bigtop.Server.State.Logs.{push_logs}
use bigtop.Server.Scheduler.{tick}
use bigtop.Server.Replay.Recovery.{opened}
use bigtop.Server.Lifecycle.{Survives, TasksById, Moves-refl, Moves-trans}
use bigtop.Server.Lifecycle.Placements.{tick-Passes}
use bigtop.Server.Lifecycle.Onward.{Onward, Onto, create_job-Onward, set_task_state-Onward}
use bigtop.Server.Ipam
use bigtop.Server.Lifecycle.Frames.{
  register_node-At, heartbeat-At, push_logs-At, request_snapshot-At, report_snapshot_result-At,
}
use bigtop.Server.Lifecycle.Owners.{Leased, Tenants}
use bigtop.Server.Lifecycle.Leases.{tick-Leased}
use bigtop.Server.Lifecycle.Leasing.{create_job-Leased, set_task_state-Leased}
use bigtop.Server.Scheduler.Load.{is_at}
use bigtop.Server.Scheduler.Overcommit.{Room}
use bigtop.Server.Lifecycle.Steady.{Steady, SteadyAt}
use bigtop.Server.Lifecycle.Room.{
  create_job-Steady, register_node-Steady, heartbeat-Steady, set_task_state-Steady, tick-Steady,
}

-- The state behind a call. New ids are in no use (no task has the id of a new task, and none is on a
-- node with the id of a new node), and a reported state passes `may`.
pub data Call (to_json : List (String × List String) → Option String) (may : TaskState → Bool)
    (s : StateInner) : StateInner → Type 0 where
  created :
      (spec : JobSpec) (job_id : JobId) (fresh : ℕ → TaskId) (now : ℕ)
      → ((n : ℕ) → get (fresh n) s.tasks ≡ none)
      → Call to_json may s (create_job spec job_id fresh now s).1
  registered :
      (id : NodeId) (name addr : String) (total : Resources) (ip : Option Ipv4Addr) (now : ℕ)
      → ((k : TaskId) (a : Task) → get k s.tasks ≡ some a → is_at id a.assigned_node ≡ false)
      → Call to_json may s (register_node id name addr total ip now s).1
  beat :
      (id : NodeId) (ip : Option Ipv4Addr) (now : ℕ) → Call to_json may s (heartbeat id ip now s).1
  reported :
      (id : TaskId) (state : TaskState) (exit_code : Option ℤ)
      → may state ≡ true
      → Call to_json may s (set_task_state id state exit_code s).1
  logged : (id : TaskId) (new : List String) → Call to_json may s (push_logs id new s).1
  asked :
      (id : SnapshotId) (task_id : TaskId) (req : RequestSnapshotRequest) (now : ℕ)
      → Call to_json may s (request_snapshot id task_id req now s).1
  answered :
      (task_id : TaskId) (snapshot_id : SnapshotId) (result : ReportSnapshotResult)
      → Call to_json may s (report_snapshot_result task_id snapshot_id result s).1
  ticked : (now : ℕ) → Call to_json may s (tick to_json now s).1

-- Calls one after another.
pub data Calls (to_json : List (String × List String) → Option String) (may : TaskState → Bool)
    (s : StateInner) : StateInner → Type 0 where
  nothing : Calls to_json may s s
  then_call :
      {u v : StateInner} → Calls to_json may s u → Call to_json may u v → Calls to_json may s v

-- Calls that do not report `pending`.
abbrev pub not_pending : TaskState → Bool
not_pending state = not (is_pending state)

module _ (to_json : List (String × List String) → Option String) where
  module _ (may : TaskState → Bool) where
    call-Onward : (s u : StateInner) → Call to_json may s u → TasksById s.tasks → Onward s u
    call-Onward s _ (created spec job_id fresh now new) v =
        create_job-Onward spec job_id fresh now s new
    call-Onward s _ (registered id name addr total ip now apart) v =
        register_node-At (Onto s.tasks) s (Moves-refl s.tasks) id name addr total ip now
          (Moves-refl s.tasks)
    call-Onward s _ (beat id ip now) v =
        heartbeat-At (Onto s.tasks) s (Moves-refl s.tasks) id ip now (λ _ _. Moves-refl s.tasks)
    call-Onward s _ (reported id state exit_code allowed) v =
        set_task_state-Onward id state exit_code s
    call-Onward s _ (logged id new) v = push_logs-At (Onto s.tasks) s (Moves-refl s.tasks) id new
    call-Onward s _ (asked id task_id req now) v =
        request_snapshot-At (Onto s.tasks) s (Moves-refl s.tasks) id task_id req now
    call-Onward s _ (answered task_id snapshot_id result) v =
        report_snapshot_result-At (Onto s.tasks) s (Moves-refl s.tasks) task_id snapshot_id result
    call-Onward s _ (ticked now) v = (tick-Passes to_json now s v).moves

    calls-Onward : (s u : StateInner) → Calls to_json may s u → TasksById s.tasks → Onward s u
    calls-Onward s _ nothing v = Moves-refl s.tasks
    calls-Onward s u (then_call before last) v =
        let earlier = calls-Onward s _ before v in
        Moves-trans s.tasks _ u.tasks earlier (call-Onward _ u last (earlier.by_id v))

  call-Leased : (s u : StateInner) → Call to_json not_pending s u → Leased s → Leased u
  call-Leased s _ (created spec job_id fresh now new) o =
      create_job-Leased spec job_id fresh now s new o
  call-Leased s _ (registered id name addr total ip now apart) o =
      register_node-At Tenants s o id name addr total ip now o
  call-Leased s _ (beat id ip now) o = heartbeat-At Tenants s o id ip now (λ _ _. o)
  call-Leased s _ (reported id state exit_code allowed) o =
      set_task_state-Leased id state exit_code (ground arith) s o
  call-Leased s _ (logged id new) o = push_logs-At Tenants s o id new
  call-Leased s _ (asked id task_id req now) o = request_snapshot-At Tenants s o id task_id req now
  call-Leased s _ (answered task_id snapshot_id result) o =
      report_snapshot_result-At Tenants s o task_id snapshot_id result
  call-Leased s _ (ticked now) o = tick-Leased to_json now s o

  calls-Leased : (s u : StateInner) → Calls to_json not_pending s u → Leased s → Leased u
  calls-Leased s _ nothing o = o
  calls-Leased s u (then_call before last) o = call-Leased _ u last (calls-Leased s _ before o)

  call-Steady :
      (s u : StateInner)
      → Call to_json not_pending s u
      → Steady s.nodes s.tasks
      → Steady u.nodes u.tasks
  call-Steady s _ (created spec job_id fresh now new) v =
      create_job-Steady spec job_id fresh now s v
  call-Steady s _ (registered id name addr total ip now apart) v =
      register_node-Steady id name addr total ip now s apart v
  call-Steady s _ (beat id ip now) v = heartbeat-Steady id ip now s v
  call-Steady s _ (reported id state exit_code allowed) v =
      set_task_state-Steady id state exit_code (ground arith) s v
  call-Steady s _ (logged id new) v = push_logs-At SteadyAt s v id new
  call-Steady s _ (asked id task_id req now) v = request_snapshot-At SteadyAt s v id task_id req now
  call-Steady s _ (answered task_id snapshot_id result) v =
      report_snapshot_result-At SteadyAt s v task_id snapshot_id result
  call-Steady s _ (ticked now) v = tick-Steady to_json now s v

  calls-Steady :
      (s u : StateInner)
      → Calls to_json not_pending s u
      → Steady s.nodes s.tasks
      → Steady u.nodes u.tasks
  calls-Steady s _ nothing v = v
  calls-Steady s u (then_call before last) v = call-Steady _ u last (calls-Steady s _ before v)

-- On a server that started with an empty state, after any calls of its operations, scheduling passes
-- included, whether they succeed or fail, with generated ids in no use: no further such calls
-- lose a task. It keeps its id, job, name and specification up to the variables, and once its state
-- is terminal nothing of it changes.
pub Calls-Survives :
    (to_json : List (String × List String) → Option String) (may : TaskState → Bool)
    (disk : List (Option String)) (s u : StateInner)
    → Calls to_json may (opened disk) s
    → Calls to_json may s u
    → (id : TaskId) (a : Task) → get id s.tasks ≡ some a
    → Survives id a u.tasks
unfolding get
Calls-Survives to_json may disk s u before after id a g =
    let v = (calls-Onward to_json may (opened disk) s before empty).by_id empty in
    (calls-Onward to_json may s u after v).survive id a g
  where
    empty : TasksById (opened disk).tasks
    empty = record { unique = tt; filed = λ k task h. absurd (ground arith) }

-- No address leaks: on a server that started with an empty state, after any calls of its operations,
-- scheduling passes included, whether they succeed or fail, with generated ids in no use and no
-- report of `pending`, every address that is taken from the pool belongs to a task of the server that
-- is assigned or runs.
pub Calls-Leased :
    (to_json : List (String × List String) → Option String) (disk : List (Option String))
    (s : StateInner)
    → Calls to_json not_pending (opened disk) s
    → Leased s
unfolding get Ipam.default
Calls-Leased to_json disk s calls =
    calls-Leased to_json (opened disk) s calls (λ k ip g. absurd (ground arith))

-- No node is ever overcommitted: on a server that started with an empty state, after any calls of its
-- operations, scheduling passes included, whether they succeed or fail, with generated ids in no use
-- and no report of `pending`, what the tasks that are assigned to a node or run on it take is within
-- the node's total, in both resources: the sums, cut off at the largest `u64`.
pub Calls-Room :
    (to_json : List (String × List String) → Option String) (disk : List (Option String))
    (s : StateInner)
    → Calls to_json not_pending (opened disk) s
    → Room s.nodes s.tasks
unfolding get
Calls-Room to_json disk s calls = (calls-Steady to_json (opened disk) s calls empty).room
  where
    empty : Steady [] []
    empty = record {
      nodes_by_id = record { unique = tt; filed = λ k node h. absurd (ground arith) };
      tasks_by_id = record { unique = tt; filed = λ k task h. absurd (ground arith) };
      waits = λ k a h. absurd (ground arith);
      room = λ id node h. absurd (ground arith);
    }
