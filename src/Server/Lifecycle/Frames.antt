-- ===== src/Server/Lifecycle/Frames.antt =====
-- state.rs: how each operation goes about the nodes, the tasks and the addresses, whether it succeeds or fails.
use bigtop.Common.{
  some, ℕ, ◌≡◌, refl, false, Option, List, HashMap, String, get, insert, ◌==◌, Bool-cases, inl, inr,
  if◌then◌else◌,
}
use bigtop.Common.Int.{ℤ}
use bigtop.Core.Ids.{JobId, TaskId, NodeId, SnapshotId}
use bigtop.Core.Error.{Result, ok, err}
use bigtop.Core.Network.{Ipv4Addr}
use bigtop.Core.Resources.{Resources}
use bigtop.Core.Types.{NodeInfo, Task, TaskState, JobSpec, is_terminal, is_running}
use bigtop.Core.Wire.{RequestSnapshotRequest, ReportSnapshotResult}
use bigtop.Server.Journal.{JournalOp}
use bigtop.Server.State.{StateInner, and_then, pure, journal_op}
use bigtop.Server.State.Jobs.{create_job, validate, submit, insert_tasks, expand}
use bigtop.Server.State.Nodes.{new_node, or_old, register_node, heartbeat}
use bigtop.Server.State.Tasks.{set_task_state, with_state, release_ip}
use bigtop.Server.State.Snapshots.{
  request_snapshot, report_snapshot_result, accept, update, is_requested, legal,
}
use bigtop.Server.State.Logs.{push_logs}
use bigtop.Server.State.Preserves.{tasks-journal_op, nodes-journal_op, and_then-P, ok_or-P}
use bigtop.Server.Ipam.{Ipam}
use bigtop.Server.Lifecycle.Leases.{ipam-journal_op}

-- A property of the nodes, the tasks and the addresses.
module _ (P : HashMap NodeInfo → HashMap Task → Ipam → Type 0) where
  abbrev At : StateInner → Type 0
  At s = P s.nodes s.tasks s.ipam

  journal_op-At : (op : JournalOp) (s : StateInner) → At s → At (journal_op op s).1
  journal_op-At op s h = rw (nodes-journal_op op s, tasks-journal_op op s, ipam-journal_op op s) h

  -- An entry of the journal, and then a result.
  entered :
      {A : Type 0} (op : JournalOp) (a : A) (s : StateInner)
      → At s
      → At (and_then (journal_op op s) (λ _. pure a)).1
  entered op a s h =
      and_then-P At (journal_op op s) (λ _. pure a) (journal_op-At op s h)
        (λ _. journal_op-At op s h)

  module _ (s : StateInner) (h : At s) where
    pub create_job-At :
        (spec : JobSpec) (job_id : JobId) (fresh : ℕ → TaskId) (now : ℕ)
        → At (insert_tasks (expand job_id fresh 0 spec.tasks) s)
        → At (create_job spec job_id fresh now s).1
    unfolding create_job submit
    create_job-At spec job_id fresh now filed = go (validate spec) refl
      where
        go : (r : Result (Unit {0})) → validate spec ≡ r → At (create_job spec job_id fresh now s).1
        go (err e) bad = rw (bad, create_job) h
        go (ok a) good = rw (good, create_job) (entered _ job_id _ filed)

    pub register_node-At :
        (id : NodeId) (name addr : String) (total : Resources) (ip : Option Ipv4Addr) (now : ℕ)
        → P (insert id (new_node id name addr total ip now) s.nodes) s.tasks s.ipam
        → At (register_node id name addr total ip now s).1
    unfolding register_node
    register_node-At id name addr total ip now new = entered _ id _ new

    pub heartbeat-At :
        (id : NodeId) (ip : Option Ipv4Addr) (now : ℕ)
        → ((node : NodeInfo)
            → get id s.nodes ≡ some node
            → P
                (insert id
                  (record node { last_heartbeat = now; underlay_ip = or_old ip node.underlay_ip })
                  s.nodes)
                s.tasks
                s.ipam)
        → At (heartbeat id ip now s).1
    unfolding heartbeat
    heartbeat-At id ip now beaten = ok_or-P At (get id s.nodes) _ _ s h beaten

    pub push_logs-At : (id : TaskId) (new : List String) → At (push_logs id new s).1
    unfolding push_logs
    push_logs-At id new = ok_or-P At (get id s.logs) _ _ s h (λ _ _. h)

    -- A report of a task's state: `kept` is about the state before its journal entry.
    pub set_task_state-At :
        (id : TaskId) (state : TaskState) (exit_code : Option ℤ)
        → ((task : Task)
            → get id s.tasks ≡ some task
            → is_terminal task.state ≡ false
            → At
                ((if is_terminal state then release_ip id else pure tt)
                  (record s { tasks = insert id (with_state task state exit_code) s.tasks })).1)
        → At (set_task_state id state exit_code s).1
    unfolding set_task_state
    set_task_state-At id state exit_code kept = ok_or-P At (get id s.tasks) _ _ s h λ task found.
        elim (Bool-cases (is_terminal task.state)) [
          | inl closed ↦ rw closed h
          | inr open' ↦ rw open' (
              and_then-P At ((if is_terminal state then release_ip id else pure tt) _) _
                (kept task found open') (λ _. journal_op-At _ _ (kept task found open')))
        ]

    pub request_snapshot-At :
        (id : SnapshotId) (task_id : TaskId) (req : RequestSnapshotRequest) (now : ℕ)
        → At (request_snapshot id task_id req now s).1
    unfolding request_snapshot accept
    request_snapshot-At id task_id req now = ok_or-P At (get task_id s.tasks) _ _ s h λ task found.
        elim (Bool-cases (is_running task.state)) [
          | inr other ↦ rw other h
          | inl running ↦
              rw running (ok_or-P At task.assigned_node _ _ s h λ node_id _. entered _ _ _ h)
        ]

    pub report_snapshot_result-At :
        (task_id : TaskId) (snapshot_id : SnapshotId) (result : ReportSnapshotResult)
        → At (report_snapshot_result task_id snapshot_id result s).1
    unfolding report_snapshot_result update
    report_snapshot_result-At task_id snapshot_id result =
        elim (Bool-cases (is_requested result.state)) [
          | inl bad ↦ rw bad h
          | inr agent ↦ rw agent (
              ok_or-P At (get snapshot_id s.snapshots) _ _ s h λ r found.
                elim (Bool-cases (r.task_id == task_id)) [
                  | inr other ↦ rw other h
                  | inl own ↦ rw own (elim (Bool-cases (legal r.state result.state)) [
                    | inr illegal ↦ rw illegal h
                    | inl allowed ↦ rw allowed (entered _ _ _ h)
                  ])
                ])
        ]
