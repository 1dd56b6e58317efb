-- ===== src/Server/Replay/Operations.antt =====
-- Every operation of state.rs that succeeds has journaled what it changed.
use bigtop.Common.{
  ℕ, ◌≡◌, refl, sym, ap, ◌∙◌, Option, List, [], ◌∷◌, HashMap, get, insert, arith, Option-cases, inl,
  inr, String, map_values-insert,
}
use bigtop.Core.Ids.{JobId, TaskId, NodeId}
use bigtop.Core.Error.{Result, ok, err}
use bigtop.Core.Network.{Ipv4Addr}
use bigtop.Core.Resources.{Resources}
use bigtop.Core.Types.{Task, JobSpec, NodeInfo}
use bigtop.Server.Journal.{JournalOp}
use bigtop.Server.State.{StateInner, JobRecord}
use bigtop.Server.State.Jobs.{insert_tasks, expand, validate, submit, create_job}
use bigtop.Server.State.Nodes.{new_node, register_node, heartbeat}
use bigtop.Server.State.Logs.{push_logs}
use bigtop.Server.Replay.{apply_one, replay_tasks}
use bigtop.Server.Replay.Same.{
  Same, Journaled, Extends, stable_nodes-insert, Extends-journal, Extends-silent,
}

-- ---------------------------------------------------------------- jobs

insert_tasks-jobs :
    (ts : List Task) (s : StateInner) (jobs : HashMap JobRecord)
    → insert_tasks ts (record s { jobs = jobs }) ≡ record (insert_tasks ts s) { jobs = jobs }
unfolding insert_tasks
insert_tasks-jobs [] s jobs = refl
insert_tasks-jobs (task ∷ ts) s jobs = insert_tasks-jobs ts _ jobs

jobs-insert_tasks : (ts : List Task) (s : StateInner) → (insert_tasks ts s).jobs ≡ s.jobs
unfolding insert_tasks
jobs-insert_tasks [] s = refl
jobs-insert_tasks (task ∷ ts) s = jobs-insert_tasks ts _

insert_tasks-journal : (ts : List Task) (s : StateInner) → (insert_tasks ts s).journal ≡ s.journal
unfolding insert_tasks
insert_tasks-journal [] s = refl
insert_tasks-journal (task ∷ ts) s = insert_tasks-journal ts _

insert_tasks-Same :
    (ts : List Task) (s t : StateInner) → Same s t → Same (insert_tasks ts s) (replay_tasks ts t)
unfolding insert_tasks replay_tasks
insert_tasks-Same [] s t h = h
insert_tasks-Same (task ∷ ts) s t h = insert_tasks-Same ts _ _ (record {
  jobs = h.jobs;
  tasks = ap (insert task.id task) h.tasks;
  snapshots = h.snapshots;
  ipam = h.ipam;
  nodes = h.nodes;
  parked = h.parked;
})

submit-Same :
    (later now : ℕ) (spec : JobSpec) (job_id : JobId) (tasks : List Task) (s t : StateInner)
    → Same s t
    → let job : JobRecord = record { name = spec.name; created_at = now } in
      let u : StateInner = insert_tasks tasks s in
      Same
        (record u { jobs = insert job_id job u.jobs })
        (apply_one later t (JournalOp.create_job job_id spec.name now tasks))
unfolding apply_one
submit-Same later now spec job_id tasks s t h =
    rw (← insert_tasks-jobs tasks s (insert job_id job (insert_tasks tasks s).jobs)) (
      insert_tasks-Same tasks _ _ (record {
        jobs = ap (insert job_id job) (h.jobs ∙ sym (jobs-insert_tasks tasks s));
        tasks = h.tasks;
        snapshots = h.snapshots;
        ipam = h.ipam;
        nodes = h.nodes;
        parked = h.parked;
      }))
  where
    job : JobRecord
    job = record { name = spec.name; created_at = now }

submit-Extends :
    (later now : ℕ) (spec : JobSpec) (job_id : JobId) (fresh : ℕ → TaskId) (s : StateInner)
    (a : JobId)
    → Journaled s
    → (submit spec job_id fresh now s).0 ≡ ok a
    → Extends later s (submit spec job_id fresh now s).1
unfolding submit
submit-Extends later now spec job_id fresh s a j h =
    Extends-journal later (JournalOp.create_job job_id spec.name now tasks) s _ job_id a j
      (insert_tasks-journal tasks s) h (submit-Same later now spec job_id tasks s)
  where
    tasks : List Task
    tasks = expand job_id fresh 0 spec.tasks

-- ---------------------------------------------------------------- nodes

-- A registration that succeeds, on a journaled state, has journaled what it changed: the journal
-- grew by entries whose replay, at whatever later time, takes every state that stands for the one
-- before to one that stands for the one behind.
pub register_node-Extends :
    (later now : ℕ) (id : NodeId) (name addr : String) (total : Resources) (ip : Option Ipv4Addr)
    (s : StateInner) (a : NodeId)
    → Journaled s
    → (register_node id name addr total ip now s).0 ≡ ok a
    → Extends later s (register_node id name addr total ip now s).1
unfolding register_node apply_one
register_node-Extends later now id name addr total ip s a j h =
    Extends-journal later (JournalOp.register_node node) s _ id a j refl h λ t same. record {
      jobs = same.jobs;
      tasks = same.tasks;
      snapshots = same.snapshots;
      ipam = same.ipam;
      nodes = simp (map_values-insert, same.nodes);
      parked = same.parked;
    }
  where
    node : NodeInfo
    node = new_node id name addr total ip now

pub heartbeat-Extends :
    (later now : ℕ) (id : NodeId) (ip : Option Ipv4Addr) (s : StateInner) (a : Unit {0})
    → Journaled s
    → (heartbeat id ip now s).0 ≡ ok a
    → Extends later s (heartbeat id ip now s).1
unfolding heartbeat
heartbeat-Extends later now id ip s a j h = elim (Option-cases (get id s.nodes)) [
  | inl missing ↦ absurd (ground arith)
  | inr (node, found) ↦ rw found (
      Extends-silent later s _ j refl λ t same. record {
        jobs = same.jobs;
        tasks = same.tasks;
        snapshots = same.snapshots;
        ipam = same.ipam;
        nodes = same.nodes ∙ sym (stable_nodes-insert id node _ s.nodes found refl);
        parked = same.parked;
      })
]

-- ---------------------------------------------------------------- logs

pub push_logs-Extends :
    (later : ℕ) (id : TaskId) (new : List String) (s : StateInner) (a : Unit {0})
    → Journaled s
    → (push_logs id new s).0 ≡ ok a
    → Extends later s (push_logs id new s).1
unfolding push_logs
push_logs-Extends later id new s a j h = elim (Option-cases (get id s.logs)) [
  | inl missing ↦ absurd (ground arith)
  | inr (buf, found) ↦ rw found (
      Extends-silent later s _ j refl λ t same. record {
        jobs = same.jobs;
        tasks = same.tasks;
        snapshots = same.snapshots;
        ipam = same.ipam;
        nodes = same.nodes;
        parked = same.parked;
      })
]

-- A job submission that succeeds, on a journaled state, has journaled what it changed: the journal
-- grew by entries whose replay, at whatever later time, takes every state that stands for the one
-- before to one that stands for the one behind.
pub create_job-Extends :
    (later now : ℕ) (spec : JobSpec) (job_id : JobId) (fresh : ℕ → TaskId) (s : StateInner)
    (a : JobId)
    → Journaled s
    → (create_job spec job_id fresh now s).0 ≡ ok a
    → Extends later s (create_job spec job_id fresh now s).1
unfolding create_job
create_job-Extends later now spec job_id fresh s a j h = go (validate spec) refl
  where
    go :
        (r : Result (Unit {0}))
        → validate spec ≡ r
        → Extends later s (create_job spec job_id fresh now s).1
    go (err e) bad = absurd (ground arith)
    go (ok u) fine =
        rw (fine, create_job)
          (submit-Extends later now spec job_id fresh s a j (rw (fine, create_job) at h))
