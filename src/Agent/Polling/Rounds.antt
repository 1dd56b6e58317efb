-- ===== src/Agent/Polling/Rounds.antt =====
-- lib.rs: which snapshots the rounds of the poll loop start.
use bigtop.Common.{
  ◌≡◌, ◌≢◌, subst, true, false, List, [], ◌∷◌, ◌++◌, ◌==◌, eq_iff, any, All, All-imp, Bool-cases,
  inl, inr, arith, map,
}
use bigtop.Common.Distinct.{Distinct}
use bigtop.Core.Ids.{SnapshotId}
use bigtop.Core.Types.{Task}
use bigtop.Core.Wire.{PendingSnapshot}
use bigtop.Agent.Firecracker.Machine.{AgentResult, ok, err}
use bigtop.Agent.Requests.{claim, dispatch}
use bigtop.Agent.Polling.{Polling, Round, dispatched, poll, poll_loop}

-- The set has the id.
abbrev Has : SnapshotId → List SnapshotId → Type 0
Has id seen = any (λ s. s == id) seen ≡ true

abbrev Lacks : SnapshotId → List SnapshotId → Type 0
Lacks id seen = any (λ s. s == id) seen ≡ false

abbrev request_ids : List PendingSnapshot → List SnapshotId
request_ids requests = map (λ r. r.snapshot_id) requests

-- What a round takes over is new, once each, and then claimed.
record Claimed (seen out : List SnapshotId) (after : List SnapshotId) : Type 0 where
  distinct : Distinct out
  new : All (λ id. Lacks id seen) out
  kept : (id : SnapshotId) → Has id seen → Has id after
  claimed : All (λ id. Has id after) out

Lacks-ne : (id other : SnapshotId) (seen : List SnapshotId) → Lacks other (id ∷ seen) → other ≢ id
Lacks-ne id other seen h e = ground (arith, eq_iff id other)

Lacks-tail :
    (id other : SnapshotId) (seen : List SnapshotId) → Lacks other (id ∷ seen) → Lacks other seen
Lacks-tail id other seen h = ground arith

Claimed-cons :
    (id : SnapshotId) (seen out after : List SnapshotId)
    → Lacks id seen
    → Claimed (id ∷ seen) out after
    → Claimed seen (id ∷ out) after
Claimed-cons id seen out after fresh c = record {
  distinct = (All-imp _ _ out (λ other h. Lacks-ne id other seen h) c.new, c.distinct);
  new = (fresh, All-imp _ _ out (λ other h. Lacks-tail id other seen h) c.new);
  kept = λ other h. c.kept other (ground arith);
  claimed = (c.kept id (ground (arith, eq_iff id id)), c.claimed);
}

dispatch-Claimed :
    (requests : List PendingSnapshot) (seen : List SnapshotId)
    → Claimed seen (request_ids (dispatch requests seen).0) (dispatch requests seen).1
unfolding dispatch claim
dispatch-Claimed [] seen = record { distinct = tt; new = tt; kept = λ id h. h; claimed = tt }
dispatch-Claimed (request ∷ requests) seen =
    elim (Bool-cases (any (λ s. s == request.snapshot_id) seen)) [
      | inl old ↦ rw old (dispatch-Claimed requests seen)
      | inr fresh ↦ rw fresh (
          Claimed-cons request.snapshot_id seen _ _ fresh
            (dispatch-Claimed requests (request.snapshot_id ∷ seen)))
    ]

dispatched-Claimed :
    (answer : AgentResult (List PendingSnapshot)) (seen : List SnapshotId)
    → Claimed seen (request_ids (dispatched answer seen).0) (dispatched answer seen).1
unfolding dispatched
dispatched-Claimed (ok requests) seen = dispatch-Claimed requests seen
dispatched-Claimed (err e) seen = record { distinct = tt; new = tt; kept = λ id h. h; claimed = tt }

-- The snapshots that a run of the loop starts, in order.
pub snapshots_of : List (List Task × List PendingSnapshot) → List SnapshotId
snapshots_of [] = []
snapshots_of ((tasks, requests) ∷ rounds) = request_ids requests ++ snapshots_of rounds

All_joined {ℓ κ} :
    {A : Type ℓ} (P : A → Type κ) (xs ys : List A) → All P xs → All P ys → All P (xs ++ ys)
All_joined P [] ys h k = k
All_joined P (x ∷ xs) ys h k = (h.0, All_joined P xs ys h.1 k)

Distinct-append :
    (after xs ys : List SnapshotId)
    → Distinct xs
    → All (λ id. Has id after) xs
    → Distinct ys
    → All (λ id. Lacks id after) ys
    → Distinct (xs ++ ys)
Distinct-append after [] ys d h e n = e
Distinct-append after (x ∷ xs) ys d h e n = (
  All_joined (λ y. y ≢ x) xs ys d.0
      (All-imp _ _ ys (λ y lacks same. ground (arith, h.0, subst (λ z. Lacks z after) same lacks))
        n),
  Distinct-append after xs ys d.1 h.1 e n,
)

not-Has :
    {seen out after : List SnapshotId}
    → Claimed seen out after
    → (id : SnapshotId) → Lacks id after
    → Lacks id seen
not-Has {seen} c id lacks = elim (Bool-cases (any (λ s. s == id) seen)) [
  | inl has ↦ absurd (ground (arith, c.kept id has))
  | inr out ↦ out
]

-- Whatever the server answers, and however often it lists a request, the poll loop starts no snapshot
-- twice, in any number of rounds, and none that was claimed before.
pub poll_loop-Distinct :
    (rounds : List Round) (p : Polling)
    → Distinct (snapshots_of (poll_loop rounds p))
      × All (λ id. any (λ s. s == id) p.seen ≡ false) (snapshots_of (poll_loop rounds p))
unfolding poll_loop poll snapshots_of
poll_loop-Distinct [] p = (tt, tt)
poll_loop-Distinct (round ∷ rounds) p =
    let c = dispatched-Claimed round.requests p.seen in
    let (distinct, new) = poll_loop-Distinct rounds (poll round p).2 in
    (
      Distinct-append _ _ _ c.distinct c.claimed distinct new,
      All_joined (λ id. Lacks id p.seen) _ _ c.new
          (All-imp _ _ _ (λ id lacks. not-Has c id lacks) new),
    )
