-- ===== src/Server/Scheduler/Budget.antt =====
-- scheduler.rs: the accounting of the nodes in the whole pass.
use bigtop.Common.{
  ℕ, ◌≡◌, ◌≢◌, sym, ap, ◌∙◌, true, false, Option, some, List, [], ◌∷◌, String, HashMap, get, arith,
  All, All-imp, All-map, All-filter, All-entries, UniqueKeys, some-eq,
}
use bigtop.Common.Distinct.{Distinct, Distinct-sort, Distinct-keys, All-sort_by}
use bigtop.Common.Sort.{sort, le_str}
use bigtop.Core.Ids.{TaskId}
use bigtop.Core.Resources.{Resources}
use bigtop.Core.Types.{Task, TaskState, holds_resources, is_pending}
use bigtop.Server.State.{StateInner}
use bigtop.Server.State.Invariant.{NodesById}
use bigtop.Server.Scheduler.Keeps.{recount_used-ById}
use bigtop.Server.Scheduler.Orphans.{Filed}
use bigtop.Server.State.Preserves.{and_then-P}
use bigtop.Server.Scheduler.{for_each, recount_used, place, place_pending, pending_ids}
use bigtop.Server.Scheduler.Load.{Dimension}
use bigtop.Server.Scheduler.Recount.{recount_used-Recounted}
use bigtop.Server.Scheduler.Capacity.{Counted, Bounded, Bounded-trans, Bounded-refl}
use bigtop.Server.Scheduler.Accounts.{Round, place-Round}

-- A task under this id holds no resources.
abbrev Idle : HashMap Task → TaskId → Type 0
Idle tasks id = (task : Task) → get id tasks ≡ some task → holds_resources task.state ≡ false

-- What the loop carries on.
pub record Going (dim : Resources → ℕ) (s u : StateInner) : Type 0 where
  pub nodes : NodesById u.nodes
  pub counted : Counted dim u
  pub bounded : Bounded dim s u

module _ (to_json : List (String × List String) → Option String) (dim : Resources → ℕ)
    (d : Dimension dim) (now : ℕ) where
  place_each-Going :
      (ids : List TaskId) (s : StateInner)
      → Distinct ids
      → All (Idle s.tasks) ids
      → NodesById s.nodes
      → Counted dim s
      → Going dim s (for_each (place to_json now) ids s).1
  place_each-Going [] s apart idle v counted = record {
    nodes = v;
    counted = counted;
    bounded = Bounded-refl dim s;
  }
  place_each-Going (id ∷ ids) s apart idle v counted =
      and_then-P (Going dim s) (place to_json now id s) (λ _. for_each (place to_json now) ids)
        (record { nodes = round.nodes; counted = round.counted; bounded = round.bounded })
        (λ _.
          let rest =
            place_each-Going ids u apart.1 (others ids round.frame apart.0 idle.1) round.nodes
              round.counted in
          record {
            nodes = rest.nodes;
            counted = rest.counted;
            bounded =
                Bounded-trans dim s u (for_each (place to_json now) ids u).1 round.bounded
                  rest.bounded;
          })
    where
      u : StateInner
      u = (place to_json now id s).1

      round : Round dim id s u
      round = place-Round to_json dim d now id s v counted idle.0

      others :
          (ids : List TaskId)
          → ((k : TaskId) → k ≢ id → get k u.tasks ≡ get k s.tasks)
          → All (λ k. k ≢ id) ids
          → All (Idle s.tasks) ids
          → All (Idle u.tasks) ids
      others [] frame ne hs = tt
      others (k ∷ ids) frame ne hs =
          ((λ task g. hs.0 task (sym (frame k ne.0) ∙ g)), others ids frame ne.1 hs.1)

  pending-Idle : (state : TaskState) → is_pending state ≡ true → holds_resources state ≡ false
  unfolding is_pending holds_resources
  pending-Idle state h = ground arith

  pending_ids-Idle : (s : StateInner) → UniqueKeys s.tasks → All (Idle s.tasks) (pending_ids s)
  unfolding pending_ids sort
  pending_ids-Idle s u = All-sort_by le_str (Idle s.tasks) _ (
      All-map _ (λ e. e.0) _
        (All-imp _ _ _ (λ e h a g. ground (arith, some-eq h.0 g, pending-Idle e.1.state))
          (All-filter (λ e. get e.0 s.tasks ≡ some e.1) (λ e. is_pending e.1.state) s.tasks
            (All-entries _ s.tasks u λ k t g. g))))

  place_pending-Going :
      (s : StateInner)
      → UniqueKeys s.tasks
      → NodesById s.nodes
      → Counted dim s
      → Going dim s (place_pending to_json now s).1
  unfolding place_pending pending_ids
  place_pending-Going s u v counted =
      place_each-Going (pending_ids s) s
        (Distinct-sort _ (Distinct-keys (λ e. is_pending e.1.state) s.tasks u))
        (pending_ids-Idle s u) v counted

  recount_used-Going : (s : StateInner) → NodesById s.nodes → Going dim s (recount_used s)
  unfolding recount_used
  recount_used-Going s v = record {
    nodes = recount_used-ById s v;
    counted = λ id node g. (recount_used-Recounted dim d id s node g).used;
    bounded = record {
      same = λ id node g.
          let r = recount_used-Recounted dim d id s node g in (r.old, r.here, ap dim r.total);
      within = λ id node g w. w;
    };
  }

  -- The recount and the placements behind it.
  pub placed-Going :
      (s : StateInner) → Filed s → Going dim s (place_pending to_json now (recount_used s)).1
  unfolding recount_used
  placed-Going s v =
      let counted = recount_used-Going s v.nodes in
      let rest = place_pending-Going (recount_used s) v.tasks counted.nodes counted.counted in
      record {
        nodes = rest.nodes;
        counted = rest.counted;
        bounded = Bounded-trans dim s (recount_used s) _ counted.bounded rest.bounded;
      }
