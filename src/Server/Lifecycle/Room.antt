-- ===== src/Server/Lifecycle/Room.antt =====
-- state.rs and scheduler.rs: no node is overcommitted, in each operation and in the scheduling pass.
use bigtop.Common.{
  All-values, ℕ, ◌≤◌, ◌≡◌, refl, Bool, true, false, ◌&&◌, none, some, Option, List, [], ◌∷◌, String,
  get, values, arith, Bool-cases, inl, inr, All, if◌then◌else◌,
}
use bigtop.Common.Int.{ℤ}
use bigtop.Core.Ids.{JobId, TaskId, NodeId}
use bigtop.Core.Network.{Ipv4Addr}
use bigtop.Core.Resources.{Resources}
use bigtop.Core.Types.{Task, TaskState, JobSpec, is_terminal, is_pending, holds_resources}
use bigtop.Server.State.{StateInner, pure}
use bigtop.Server.State.Jobs.{create_job, insert_tasks, expand}
use bigtop.Server.State.Nodes.{register_node, heartbeat}
use bigtop.Server.State.Tasks.{set_task_state, with_state, release_ip}
use bigtop.Server.State.Submits.{expand-All}
use bigtop.Server.Replay.Transitions.{tasks-release_ip, nodes-release_ip}
use bigtop.Server.Scheduler.{tick}
use bigtop.Server.Scheduler.Load.{load-apart, is_at, share, carried}
use bigtop.Server.Scheduler.Overcommit.{tick-Room, tick-ById}
use bigtop.Server.Lifecycle.Passes.{Waits}
use bigtop.Server.Lifecycle.Placements.{tick-Passes}
use bigtop.Server.Lifecycle.Leasing.{busy-holds}
use bigtop.Server.Scheduler.Orphans.{Filed}
use bigtop.Server.Lifecycle.Frames.{
  create_job-At, set_task_state-At, register_node-At, heartbeat-At,
}
use bigtop.Server.Lifecycle.Steady.{Steady, SteadyAt, Lighter, Steady-node, Steady-task, Steady-new}

insert_tasks-Steady :
    (tasks : List Task) (s : StateInner)
    → All (λ t. (holds_resources t.state ≡ false) × (t.assigned_node ≡ none)) tasks
    → Steady s.nodes s.tasks
    → let u = insert_tasks tasks s in Steady u.nodes u.tasks
unfolding insert_tasks
insert_tasks-Steady [] s new v = v
insert_tasks-Steady (t ∷ tasks) s new v =
    insert_tasks-Steady tasks _ new.1 (Steady-new s.nodes s.tasks v t new.0.0 new.0.1)

pub create_job-Steady :
    (spec : JobSpec) (job_id : JobId) (fresh : ℕ → TaskId) (now : ℕ) (s : StateInner)
    → Steady s.nodes s.tasks
    → let u = (create_job spec job_id fresh now s).1 in Steady u.nodes u.tasks
unfolding holds_resources
create_job-Steady spec job_id fresh now s v = create_job-At SteadyAt s v spec job_id fresh now (
    insert_tasks-Steady (expand job_id fresh 0 spec.tasks) s
      (expand-All (λ t. (holds_resources t.state ≡ false) × (t.assigned_node ≡ none)) job_id fresh
        (λ one n. (refl, refl)) 0 spec.tasks)
      v)

pub heartbeat-Steady :
    (id : NodeId) (ip : Option Ipv4Addr) (now : ℕ) (s : StateInner)
    → Steady s.nodes s.tasks
    → let u = (heartbeat id ip now s).1 in Steady u.nodes u.tasks
heartbeat-Steady id ip now s v = heartbeat-At SteadyAt s v id ip now λ node found.
    Steady-node s.nodes s.tasks v id _ (v.nodes_by_id.filed id node found) (v.room id node found)

share-with_state :
    (task : Task) (state : TaskState) (exit_code : Option ℤ) (dim : Resources → ℕ) (id : NodeId)
    → share dim id (with_state task state exit_code) ≡ (
        if holds_resources state && is_at id task.assigned_node then dim task.spec.resources else 0)
share-with_state task state exit_code dim id = elim (Bool-cases (is_terminal state)) [
  | inl final ↦ rw (final, with_state) refl
  | inr live ↦ rw (live, with_state) refl
]

-- What a report leaves of a task that is not over is no heavier.
reported-Lighter :
    (task : Task) (state : TaskState) (exit_code : Option ℤ)
    → is_terminal task.state ≡ false
    → Waits task
    → Lighter (with_state task state exit_code) task
reported-Lighter task state exit_code open' waits dim id =
    elim (Bool-cases (is_pending task.state)) [
      | inl pending ↦
          rw (share-with_state task state exit_code dim id, waits pending) (ground arith)
      | inr busy ↦
          let held = busy-holds task.state busy open' in
          rw (share-with_state task state exit_code dim id, held) (ground arith)
    ]

reported-Waits :
    (task : Task) (state : TaskState) (exit_code : Option ℤ)
    → is_pending state ≡ false
    → Waits (with_state task state exit_code)
reported-Waits task state exit_code busy = elim (Bool-cases (is_terminal state)) [
  | inl final ↦ rw (final, with_state) (λ h. absurd (ground arith))
  | inr live ↦ rw (live, with_state) (λ h. absurd (ground arith))
]

id-with_state :
    (task : Task) (state : TaskState) (exit_code : Option ℤ)
    → (with_state task state exit_code).id ≡ task.id
id-with_state task state exit_code = ground arith

-- A report of a state, other than `pending`, that may return the task's address.
pub set_task_state-Steady :
    (id : TaskId) (state : TaskState) (exit_code : Option ℤ)
    → is_pending state ≡ false
    → (s : StateInner) → Steady s.nodes s.tasks
    → let u = (set_task_state id state exit_code s).1 in Steady u.nodes u.tasks
set_task_state-Steady id state exit_code busy s v =
    set_task_state-At SteadyAt s v id state exit_code λ task found open'.
      freed (is_terminal state) _ (
        Steady-task s.nodes s.tasks v id task (with_state task state exit_code) found
          (id-with_state task state exit_code) (reported-Waits task state exit_code busy)
          (reported-Lighter task state exit_code open' (v.waits id task found)))
  where
    freed :
        (b : Bool) (u : StateInner)
        → Steady u.nodes u.tasks
        → let t = ((if b then release_ip id else pure tt) u).1 in Steady t.nodes t.tasks
    freed true u h = rw (nodes-release_ip id u, tasks-release_ip id u) h
    freed false u h = h

pub tick-Steady :
    (to_json : List (String × List String) → Option String) (now : ℕ) (s : StateInner)
    → Steady s.nodes s.tasks
    → let u = (tick to_json now s).1 in Steady u.nodes u.tasks
tick-Steady to_json now s v =
    let passes = tick-Passes to_json now s v.tasks_by_id in
    let filed : Filed s = record { nodes = v.nodes_by_id; tasks = v.tasks_by_id.unique } in
    record {
      nodes_by_id = tick-ById to_json now s filed;
      tasks_by_id = passes.moves.by_id v.tasks_by_id;
      waits = passes.waits v.waits;
      room = tick-Room to_json now s filed v.room;
    }

-- A node joins under an id that no task is on.
pub register_node-Steady :
    (id : NodeId) (name addr : String) (total : Resources) (ip : Option Ipv4Addr) (now : ℕ)
    (s : StateInner)
    → ((k : TaskId) (a : Task) → get k s.tasks ≡ some a → is_at id a.assigned_node ≡ false)
    → Steady s.nodes s.tasks
    → let u = (register_node id name addr total ip now s).1 in Steady u.nodes u.tasks
register_node-Steady id name addr total ip now s apart v =
    register_node-At SteadyAt s v id name addr total ip now (
      Steady-node s.nodes s.tasks v id _ refl
        (record { cpu = empty (λ r. r.cpu_millis); mem = empty (λ r. r.mem_mb) }))
  where
    nobody : All (λ t. is_at id t.assigned_node ≡ false) (values s.tasks)
    nobody = All-values (λ t. is_at id t.assigned_node ≡ false) s.tasks v.tasks_by_id.unique apart

    empty : (dim : Resources → ℕ) → {n : ℕ} → carried dim id s.tasks ≤ n
    empty dim = let none_there = load-apart dim id (values s.tasks) nobody in omega arith
