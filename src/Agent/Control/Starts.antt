-- ===== src/Agent/Control/Starts.antt =====
-- lib.rs: how long an agent tries to register, and with what it starts.
use bigtop.Common.{
  ℕ, zero, suc, ◌+◌, ◌*◌, ◌≤◌, ◌<◌, ◌≡◌, inl, inr, refl, some, List, [], ◌∷◌, length, leb, leb_iff,
  Bool-cases, arith, eq_iff,
}
use bigtop.Core.Ids.{NodeId, TaskId, SnapshotId}
use bigtop.Core.Snapshots.{SnapshotSpec}
use bigtop.Server.State.Snapshots.{new_record}
use bigtop.Agent.Firecracker.Machine.{AgentResult, ok, err}
use bigtop.Agent.Control.{register_with_retry, snapshot_request}

-- The times at which attempts end: each one at or after this time, and behind a failed one the agent
-- sleeps for half a second.
abbrev pub Paced : ℕ → List (AgentResult NodeId × ℕ) → Type 0
Paced time [] = Unit
Paced time ((r, now) ∷ attempts) = (time ≤ now) × Paced (now + 500) attempts

retried :
    (deadline time n : ℕ) (attempts : List (AgentResult NodeId × ℕ))
    → Paced time attempts
    → deadline ≤ time + 500 * n
    → n < length attempts
    → (r : AgentResult NodeId) × (register_with_retry deadline attempts ≡ some r)
unfolding register_with_retry
retried deadline time n [] p d l = absurd (omega arith)
retried deadline time n ((ok id, now) ∷ attempts) p d l = (ok id, refl)
retried deadline time zero ((err e, now) ∷ attempts) p d l =
    (err e, rw ((leb_iff deadline now).1 (omega (arith, p.0))))
retried deadline time (suc n) ((err e, now) ∷ attempts) p d l =
    elim (Bool-cases (leb deadline now)) [
      | inl over ↦ (err e, rw over)
      | inr left ↦
          rw left (retried deadline (now + 500) n attempts p.1 (omega (arith, p.0)) (omega arith))
    ]

-- An agent that is not let in gives up: of sixty-one attempts, however long each one takes, with half a
-- second between them, one registers it or ends with the error that is returned.
pub register_with_retry_ends :
    (start : ℕ) (attempts : List (AgentResult NodeId × ℕ))
    → Paced start attempts
    → 60 < length attempts
    → (r : AgentResult NodeId) × (register_with_retry (start + 30_000) attempts ≡ some r)
register_with_retry_ends start attempts p l =
    retried (start + 30_000) start 60 attempts p (omega arith) l

-- The record that the server makes of an agent's request for a snapshot has the paths of the policy.
new_record-snapshot_request :
    (id : SnapshotId) (task_id : TaskId) (node_id : NodeId) (spec : SnapshotSpec) (now : ℕ)
    → (new_record id task_id node_id (snapshot_request spec) now).spec ≡ spec
unfolding snapshot_request
new_record-snapshot_request id task_id node_id spec now =
    ground (arith, eq_iff spec.mem_file_path "", eq_iff spec.snapshot_path "")
