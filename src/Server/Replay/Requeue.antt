-- ===== src/Server/Replay/Requeue.antt =====
-- The first two steps of a scheduling pass have journaled what they changed.
use bigtop.Common.{
  subst, ℕ, ◌≡◌, refl, sym, ap, ◌∙◌, List, [], ◌∷◌, HashMap, get, arith, Option-cases, inl, inr,
  values,
}
use mathlib.Core.List.{foldl}
use bigtop.Core.Ids.{TaskId, NodeId}
use bigtop.Core.Error.{Result, ok, err}
use bigtop.Core.Resources.{Resources}
use bigtop.Core.Types.{Task, NodeInfo}
use bigtop.Server.Journal.{JournalOp}
use bigtop.Server.State.{StateInner, Exec, and_then, journal_op}
use bigtop.Server.State.Tasks.{release_ip}
use bigtop.Server.Scheduler.{
  for_each, requeue, requeued, update_task, recount_used, set_used, reset_used, hold,
}
use bigtop.Server.Replay.{apply_one}
use bigtop.Server.Replay.Same.{
  stable, stable_nodes, stable_nodes-insert, Journaled, Extends, Extends-refl, Extends-trans,
  Extends-step, Extends-silent,
}
use bigtop.Server.Replay.Transitions.{release_ip-Extends, release_ip-tasks, tasks-release_ip}

module _ (now : ℕ) (id : TaskId) (s : StateInner) (j : Journaled s) where
  abbrev new_tasks : HashMap Task
  new_tasks = update_task id requeued s.tasks

  requeue-tail :
      (r : Result (Unit {0}) × StateInner)
      → release_ip id s ≡ r
      → (and_then
          (r.0, record r.1 { tasks = new_tasks })
          (λ _. journal_op (JournalOp.task_requeued id))).0
        ≡ ok tt
      → Extends now s
          (and_then
            (r.0, record r.1 { tasks = new_tasks })
            (λ _. journal_op (JournalOp.task_requeued id))).1
  unfolding apply_one
  requeue-tail (err e, u) released h = absurd (ground arith)
  requeue-tail (ok a, u) released h =
      let first : Extends now s u =
        subst (λ q. Extends now s q.1) released
          (release_ip-Extends now id s j
            (ap (λ (q : Result (Unit {0}) × StateInner). q.0) released)) in
      let kept : u.tasks ≡ s.tasks =
        subst (λ q. q.1.tasks ≡ s.tasks) released (tasks-release_ip id s) in
      Extends-trans now s u _ first (
        Extends-step now (JournalOp.task_requeued id) u _ first.attached refl h λ t same. record {
          jobs = same.jobs;
          tasks = ap (update_task id requeued) (same.tasks ∙ kept);
          snapshots = same.snapshots;
          ipam = same.ipam;
          nodes = same.nodes;
          parked = same.parked;
        })

  -- Requeueing a task, where it succeeds, on a journaled state, has journaled what it changed: the
  -- journal grew by entries whose replay, at whatever later time, takes every state that stands for
  -- the one before to one that stands for the one behind.
  pub requeue-Extends : (requeue id s).0 ≡ ok tt → Extends now s (requeue id s).1
  unfolding requeue
  requeue-Extends h =
      rw (release_ip-tasks id s new_tasks)
        (requeue-tail (release_ip id s) refl (rw (release_ip-tasks id s new_tasks, requeue) at h))

-- ---------------------------------------------------------------- loops

-- One action after another.
pub seq-Extends {κ} :
    (P : StateInner → Type κ) (now : ℕ) (s : StateInner) (r : Result (Unit {0}) × StateInner)
    (k : Exec (Unit {0}))
    → (r.0 ≡ ok tt → P r.1 × Extends now s r.1)
    → ((u : StateInner) → P u → Journaled u → (k u).0 ≡ ok tt → P (k u).1 × Extends now u (k u).1)
    → (and_then r (λ _. k)).0 ≡ ok tt
    → P (and_then r (λ _. k)).1 × Extends now s (and_then r (λ _. k)).1
seq-Extends P now s (err e, u) k first second h = absurd (ground arith)
seq-Extends P now s (ok a, u) k first second h =
    let (p, x) = first refl in
    let (q, y) = second u p x.attached h in (q, Extends-trans now s u _ x y)

-- A loop whose rounds keep `P` and journal what they change does so too.
module _ {ℓ κ} {A : Type ℓ} (now : ℕ) (P : StateInner → Type κ) (body : A → Exec (Unit {0}))
    (round : (x : A) (s : StateInner)
      → P s
      → Journaled s
      → (body x s).0 ≡ ok tt
      → P (body x s).1 × Extends now s (body x s).1) where
  pub for_each-Extends :
      (xs : List A) (s : StateInner)
      → P s
      → Journaled s
      → (for_each body xs s).0 ≡ ok tt
      → P (for_each body xs s).1 × Extends now s (for_each body xs s).1
  for_each-Extends [] s p j h = (p, Extends-refl now s j)
  for_each-Extends (x ∷ xs) s p j h =
      seq-Extends P now s (body x s) (for_each body xs) (round x s p j) (for_each-Extends xs) h

-- ---------------------------------------------------------------- accounting

set_used-stable :
    (nodes : HashMap NodeInfo) (e : NodeId × Resources)
    → stable_nodes (set_used nodes e) ≡ stable_nodes nodes
unfolding set_used
set_used-stable nodes (node_id, used) = elim (Option-cases (get node_id nodes)) [
  | inl missing ↦ rw (missing, set_used)
  | inr (node, found) ↦ rw (found, set_used) (stable_nodes-insert node_id node _ nodes found refl)
]

set_all-stable :
    (held : List (NodeId × Resources)) (nodes : HashMap NodeInfo)
    → stable_nodes (foldl set_used nodes held) ≡ stable_nodes nodes
set_all-stable [] nodes = refl
set_all-stable (e ∷ held) nodes = set_all-stable held (set_used nodes e) ∙ set_used-stable nodes e

reset_used-stable :
    (nodes : HashMap NodeInfo) → stable_nodes (reset_used nodes) ≡ stable_nodes nodes
reset_used-stable [] = refl
reset_used-stable ((id, node) ∷ nodes) = ap (◌∷◌ (id, stable node)) (reset_used-stable nodes)

pub recount_used-Extends : (now : ℕ) (s : StateInner) → Journaled s → Extends now s (recount_used s)
unfolding recount_used
recount_used-Extends now s j = Extends-silent now s _ j refl λ t same. record {
  jobs = same.jobs;
  tasks = same.tasks;
  snapshots = same.snapshots;
  ipam = same.ipam;
  nodes =
      same.nodes
      ∙ sym (set_all-stable (foldl hold [] (values s.tasks)) _ ∙ reset_used-stable s.nodes);
  parked = same.parked;
}

pub stable-recount_used :
    (s : StateInner) → stable_nodes (recount_used s).nodes ≡ stable_nodes s.nodes
unfolding recount_used
stable-recount_used s =
    set_all-stable (foldl hold [] (values s.tasks)) _ ∙ reset_used-stable s.nodes
