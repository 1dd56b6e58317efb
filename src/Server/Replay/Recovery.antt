-- ===== src/Server/Replay/Recovery.antt =====
-- The journal as the record of a whole run of the server: what a restart rebuilds from it.
use bigtop.Common.{
  ℕ, ◌≡◌, refl, sym, ap, subst, ◌∙◌, arith, false, Option, none, some, List, [], get, String,
}
use bigtop.Common.Int.{ℤ}
use bigtop.Core.Ids.{TaskId, NodeId, JobId, SnapshotId}
use bigtop.Core.Error.{Result, ok}
use bigtop.Core.Network.{Ipv4Addr}
use bigtop.Core.Resources.{Resources}
use bigtop.Core.Snapshots.{SnapshotRecord}
use bigtop.Core.Types.{JobSpec, TaskState, is_pending}
use bigtop.Core.Wire.{RequestSnapshotRequest, ReportSnapshotResult}
use bigtop.Server.Ipam
use bigtop.Server.Ipam.Valid.{default-Valid}
use bigtop.Server.State
use bigtop.Server.State.{StateInner, Exec}
use bigtop.Server.State.Jobs.{create_job}
use bigtop.Server.State.Nodes.{register_node, heartbeat}
use bigtop.Server.State.Tasks.{set_task_state}
use bigtop.Server.State.Snapshots.{request_snapshot, report_snapshot_result}
use bigtop.Server.State.Logs.{push_logs}
use bigtop.Server.State.Invariant.{Inv}
use bigtop.Server.State.Preserves.{
  set_task_state-Inv, register_node-Inv, heartbeat-Inv, push_logs-Keeps,
}
use bigtop.Server.State.Submits.{create_job-Inv, request_snapshot-Inv, report_snapshot_result-Inv}
use bigtop.Server.Scheduler.{tick, recount_used}
use bigtop.Server.Replay.{apply_ops, apply_all}
use bigtop.Server.Replay.Same.{Same, Journaled, lines, Extends, Extends-refl, Extends-trans}
use bigtop.Server.Replay.Operations.{
  register_node-Extends, heartbeat-Extends, push_logs-Extends, create_job-Extends,
}
use bigtop.Server.Replay.Transitions.{set_task_state-Extends}
use bigtop.Server.Replay.Snapshots.{request_snapshot-Extends, report_snapshot_result-Extends}
use bigtop.Server.Replay.Requeue.{stable-recount_used}
use bigtop.Server.Replay.Pass.{tick-Extends}

-- A server that starts with an empty state and an empty journal.
abbrev pub opened : List (Option String) → StateInner
opened disk = record State.default {
  journal = some (record { lines = []; ops_written = 0; disk = disk });
}

pub opened-Inv : (disk : List (Option String)) → Inv (opened disk)
unfolding get Ipam.default
opened-Inv disk = record {
  nodes = record { unique = tt; filed = λ k node g. absurd (ground arith) };
  ipam = default-Valid;
  tasks = tt;
  waiting = λ k task g. absurd (ground arith);
}

module _ (to_json : List (String × List String) → Option String) where
  -- One call that succeeded. Generated task ids hold no address, and no agent reports `pending`.
  pub data Step (s u : StateInner) : Type 0 where
    created :
        (spec : JobSpec) (job_id : JobId) (fresh : ℕ → TaskId) (now : ℕ) (a : JobId)
        → ((n : ℕ) → get (fresh n) s.ipam.allocated ≡ none)
        → create_job spec job_id fresh now s ≡ (ok a, u)
        → Step s u
    registered :
        (id : NodeId) (name addr : String) (total : Resources) (ip : Option Ipv4Addr) (now : ℕ)
        (a : NodeId)
        → register_node id name addr total ip now s ≡ (ok a, u)
        → Step s u
    beat :
        (id : NodeId) (ip : Option Ipv4Addr) (now : ℕ)
        → heartbeat id ip now s ≡ (ok tt, u)
        → Step s u
    reported :
        (id : TaskId) (state : TaskState) (exit_code : Option ℤ)
        → is_pending state ≡ false
        → set_task_state id state exit_code s ≡ (ok tt, u)
        → Step s u
    logged : (id : TaskId) (new : List String) → push_logs id new s ≡ (ok tt, u) → Step s u
    asked :
        (id : SnapshotId) (task_id : TaskId) (req : RequestSnapshotRequest) (now : ℕ)
        (a : SnapshotRecord)
        → request_snapshot id task_id req now s ≡ (ok a, u)
        → Step s u
    answered :
        (task_id : TaskId) (snapshot_id : SnapshotId) (result : ReportSnapshotResult)
        (a : SnapshotRecord)
        → report_snapshot_result task_id snapshot_id result s ≡ (ok a, u)
        → Step s u
    ticked : (now : ℕ) → tick to_json now s ≡ (ok tt, u) → Step s u

  -- Successful calls, one after another.
  pub data Run (s : StateInner) : StateInner → Type 0 where
    start : Run s s
    next : {u v : StateInner} → Run s u → Step u v → Run s v

  -- From the result of a call to the state behind it.
  returned {ℓ} :
      {A : Type ℓ} (later : ℕ) (m : Exec A) (s u : StateInner) (a : A)
      → m s ≡ (ok a, u)
      → Inv (m s).1
      → ((m s).0 ≡ ok a → Extends later s (m s).1)
      → Inv u × Extends later s u
  returned later m s u a e v x = (
    subst (λ r. Inv r.1) e v,
    subst (λ r. Extends later s r.1) e (x (ap (λ (r : Result _ × StateInner). r.0) e)),
  )

  step-Extends :
      (later : ℕ) (s u : StateInner) → Inv s → Journaled s → Step s u → Inv u × Extends later s u
  step-Extends later s u v j (created spec job_id fresh now a new e) =
      returned later (create_job spec job_id fresh now) s u a e
        (create_job-Inv spec job_id fresh now s new v)
        (create_job-Extends later now spec job_id fresh s a j)
  step-Extends later s u v j (registered id name addr total ip now a e) =
      returned later (register_node id name addr total ip now) s u a e
        (register_node-Inv id name addr total ip now s v)
        (register_node-Extends later now id name addr total ip s a j)
  step-Extends later s u v j (beat id ip now e) =
      returned later (heartbeat id ip now) s u tt e (heartbeat-Inv id ip now s v)
        (heartbeat-Extends later now id ip s tt j)
  step-Extends later s u v j (reported id state exit_code busy e) =
      returned later (set_task_state id state exit_code) s u tt e
        (set_task_state-Inv id state exit_code busy s v)
        (set_task_state-Extends later id state exit_code s j)
  step-Extends later s u v j (logged id new e) =
      returned later (push_logs id new) s u tt e (push_logs-Keeps id new s v)
        (push_logs-Extends later id new s tt j)
  step-Extends later s u v j (asked id task_id req now a e) =
      returned later (request_snapshot id task_id req now) s u a e
        (request_snapshot-Inv id task_id req now s v)
        (request_snapshot-Extends later now id task_id req s a j)
  step-Extends later s u v j (answered task_id snapshot_id result a e) =
      returned later (report_snapshot_result task_id snapshot_id result) s u a e
        (report_snapshot_result-Inv task_id snapshot_id result s v)
        (report_snapshot_result-Extends task_id snapshot_id result later s a j)
  step-Extends later s u v j (ticked now e) =
      let (w, x) =
        tick-Extends to_json now later s v j (ap (λ (r : Result (Unit {0}) × StateInner). r.0) e) in
      (subst (λ r. Inv r.1) e w, subst (λ r. Extends later s r.1) e x)

  -- Every run of successful calls keeps the invariant and journals what it changed.
  pub run-Extends :
      (later : ℕ) (s u : StateInner) → Inv s → Journaled s → Run s u → Inv u × Extends later s u
  run-Extends later s u v j start = (v, Extends-refl later s j)
  run-Extends later s u v j (next run step) =
      let (w, x) = run-Extends later s _ v j run in
      let (w', y) = step-Extends later _ u w x.attached step in (w', Extends-trans later s _ u x y)

  recounted : (u t : StateInner) → Same u t → Same u (record (recount_used t) { journal = none })
  unfolding recount_used
  recounted u t same = record {
    jobs = same.jobs;
    tasks = same.tasks;
    snapshots = same.snapshots;
    ipam = same.ipam;
    nodes = stable-recount_used t ∙ same.nodes;
    parked = refl;
  }

  -- After any run of successful operations and scheduling passes on a server that started with an
  -- empty state and an empty journal, in which generated task ids hold no address and no agent
  -- reports `pending`, replaying the journal's lines on the empty state, at whatever later time,
  -- rebuilds the jobs, tasks, snapshots and addresses exactly, and the nodes up to heartbeat time,
  -- underlay address and `used`.
  pub apply_ops-lines :
      (later : ℕ) (disk : List (Option String)) (u : StateInner)
      → Run (opened disk) u
      → Same u (apply_ops State.default (lines u) later)
  unfolding apply_ops
  apply_ops-lines later disk u run =
      let (v, x) = run-Extends later (opened disk) u (opened-Inv disk) (_, refl) run in
      recounted u (apply_all later State.default (lines u)) (
        subst (λ ops. Same u (apply_all later State.default ops)) (sym x.written)
          (x.replays State.default (record {
            jobs = refl;
            tasks = refl;
            snapshots = refl;
            ipam = refl;
            nodes = refl;
            parked = refl;
          })))
