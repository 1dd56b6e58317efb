-- ===== src/Server/Replay/Pass.antt =====
-- A whole scheduling pass has journaled what it changed.
use bigtop.Common.{
  All-entries, ℕ, ◌≡◌, ◌≢◌, refl, true, Option, none, List, [], ◌∷◌, HashMap, get, arith, String,
  All, All-imp, All-map, All-filter, filter, Option-cases, Bool-cases, inl, inr,
}
use bigtop.Common.Distinct.{Distinct, Distinct-sort, Distinct-keys, All-sort_by}
use bigtop.Common.Sort.{sort, le_str}
use bigtop.Core.Ids.{TaskId, NodeId}
use bigtop.Core.Error.{Result, ok, err}
use bigtop.Core.Types.{Task, is_pending}
use bigtop.Server.Ipam.{allocate}
use bigtop.Server.State.{StateInner, Exec, and_then}
use bigtop.Server.State.Invariant.{Inv}
use bigtop.Server.Scheduler.{
  for_each, requeue_dead_nodes, dead_nodes, orphans, requeue, recount_used, pending_ids, place,
  place_pending, tick,
}
use bigtop.Server.Scheduler.Pick.{pick_node}
use bigtop.Server.Scheduler.Chosen.{pick_node-Chosen}
use bigtop.Server.Scheduler.Keeps.{requeue-Inv, recount_used-Inv}
use bigtop.Server.Replay.Same.{Journaled, Extends, Extends-refl, Extends-trans}
use bigtop.Server.Replay.Requeue.{
  requeue-Extends, seq-Extends, for_each-Extends, recount_used-Extends,
}
use bigtop.Server.Replay.Round.{Frame, Round, Round-refl, plain-Round, networked-Round}

module _ (to_json : List (String × List String) → Option String) (now later : ℕ) where
  -- A round for a task that holds no address, whatever it finds.
  place-Round :
      (task_id : TaskId) (s : StateInner)
      → get task_id s.ipam.allocated ≡ none
      → Inv s
      → Journaled s
      → (place to_json now task_id s).0 ≡ ok tt
      → Round later task_id s (place to_json now task_id s).1
  unfolding place
  place-Round task_id s unheld v j h = elim (Option-cases (get task_id s.tasks)) [
    | inl missing ↦ rw (missing, place) (Round-refl later task_id s v j)
    | inr (task, found) ↦ elim (Option-cases (pick_node s task now)) [
      | inl nobody ↦ rw (found, nobody, place) (Round-refl later task_id s v j)
      | inr (node_id, picked) ↦
          let c = pick_node-Chosen s task now node_id v.nodes picked in
          elim (Bool-cases task.spec.network.enabled) [
            | inl on ↦
                rw (found, picked, on, place)
                  (networked-Round to_json now later task_id s task node_id found unheld v j c
                    (allocate s.ipam node_id task_id) refl (rw (found, picked, on, place) at h))
            | inr off ↦
                rw (found, picked, off, place)
                  (plain-Round to_json now later task_id s task node_id found unheld v j c
                    (rw (found, picked, off, place) at h))
          ]
    ]
  ]

  abbrev Unheld : StateInner → TaskId → Type 0
  Unheld s id = get id s.ipam.allocated ≡ none

  -- What is left of the loop holds no address still.
  rest-Unheld :
      (task_id : TaskId) (ids : List TaskId) (s u : StateInner)
      → Frame task_id s u
      → All (λ k. k ≢ task_id) ids
      → All (Unheld s) ids
      → All (Unheld u) ids
  rest-Unheld task_id [] s u frame apart hs = tt
  rest-Unheld task_id (k ∷ ids) s u frame apart hs =
      (frame k apart.0 hs.0, rest-Unheld task_id ids s u frame apart.1 hs.1)

  -- A round, and what comes after it.
  first_then_rest :
      (id : TaskId) (s : StateInner) (r : Result (Unit {0}) × StateInner) (k : Exec (Unit {0}))
      → (r.0 ≡ ok tt → Round later id s r.1)
      → ((u : StateInner)
          → Inv u
          → Frame id s u
          → Journaled u
          → (k u).0 ≡ ok tt
          → Inv (k u).1 × Extends later u (k u).1)
      → (and_then r (λ _. k)).0 ≡ ok tt
      → Inv (and_then r (λ _. k)).1 × Extends later s (and_then r (λ _. k)).1
  first_then_rest id s (err x, u) k round rest h = absurd (ground arith)
  first_then_rest id s (ok a, u) k round rest h =
      let first = round refl in
      let (w, after) = rest u first.inv first.frame first.extends.attached h in
      (w, Extends-trans later s u _ first.extends after)

  place_each-Extends :
      (ids : List TaskId) (s : StateInner)
      → Distinct ids
      → All (Unheld s) ids
      → Inv s
      → Journaled s
      → (for_each (place to_json now) ids s).0 ≡ ok tt
      → Inv (for_each (place to_json now) ids s).1
        × Extends later s (for_each (place to_json now) ids s).1
  place_each-Extends [] s d hs v j h = (v, Extends-refl later s j)
  place_each-Extends (id ∷ ids) s d hs v j h =
      first_then_rest id s (place to_json now id s) (for_each (place to_json now) ids)
        (place-Round id s hs.0 v j)
        (λ u w frame k ran.
          place_each-Extends ids u d.1 (rest-Unheld id ids s u frame d.0 hs.1) w k ran)
        h

  pending_ids-Distinct : (s : StateInner) → Inv s → Distinct (pending_ids s)
  unfolding pending_ids
  pending_ids-Distinct s v =
      Distinct-sort _ (Distinct-keys (λ e. is_pending e.1.state) s.tasks v.tasks)

  pending_ids-Unheld : (s : StateInner) → Inv s → All (Unheld s) (pending_ids s)
  unfolding pending_ids sort
  pending_ids-Unheld s v = All-sort_by le_str (Unheld s) _ (
      All-map (Unheld s) (λ e. e.0) pending
        (All-imp _ (λ e. Unheld s e.0) pending (λ e w. w.0 w.1)
          (All-filter (λ e. is_pending e.1.state ≡ true → Unheld s e.0) (λ e. is_pending e.1.state)
            s.tasks (All-entries _ s.tasks v.tasks λ k task g waits. v.waiting k task g waits))))
    where
      pending : HashMap Task
      pending = filter (λ e. is_pending e.1.state) s.tasks

  place_pending-Extends :
      (s : StateInner)
      → Inv s
      → Journaled s
      → (place_pending to_json now s).0 ≡ ok tt
      → Inv (place_pending to_json now s).1 × Extends later s (place_pending to_json now s).1
  unfolding place_pending
  place_pending-Extends s v j h =
      place_each-Extends (pending_ids s) s (pending_ids-Distinct s v) (pending_ids-Unheld s v) v j h

  requeue_dead_nodes-Extends :
      (s : StateInner)
      → Inv s
      → Journaled s
      → (requeue_dead_nodes now s).0 ≡ ok tt
      → Inv (requeue_dead_nodes now s).1 × Extends later s (requeue_dead_nodes now s).1
  unfolding requeue_dead_nodes
  requeue_dead_nodes-Extends s v j h = go (dead_nodes now s) refl h
    where
      go :
          (dead : List NodeId)
          → dead_nodes now s ≡ dead
          → (requeue_dead_nodes now s).0 ≡ ok tt
          → Inv (requeue_dead_nodes now s).1 × Extends later s (requeue_dead_nodes now s).1
      go [] e h = rw (e, requeue_dead_nodes) (v, Extends-refl later s j)
      go (node ∷ dead) e h =
          rw (e, requeue_dead_nodes)
            (for_each-Extends later Inv requeue
              (λ id u w k ran. (requeue-Inv id u w, requeue-Extends later id u k ran))
              (orphans (node ∷ dead) s) s v j (rw (e, requeue_dead_nodes) at h))

  -- A scheduling pass that succeeds, on a journaled state that satisfies the invariant, keeps the
  -- invariant and has journaled all that it changed: the journal grew by entries whose replay, at
  -- whatever later time, takes every state that stands for the one before to one that stands for the
  -- one behind.
  pub tick-Extends :
      (s : StateInner)
      → Inv s
      → Journaled s
      → (tick to_json now s).0 ≡ ok tt
      → Inv (tick to_json now s).1 × Extends later s (tick to_json now s).1
  unfolding tick
  tick-Extends s v j h =
      seq-Extends Inv later s (requeue_dead_nodes now s)
        (λ u. place_pending to_json now (recount_used u)) (requeue_dead_nodes-Extends s v j)
        (λ u w k ran.
          let counted = recount_used-Extends later u k in
          let (x, rest) =
            place_pending-Extends (recount_used u) (recount_used-Inv u w) counted.attached ran in
          (x, Extends-trans later u (recount_used u) _ counted rest))
        h
