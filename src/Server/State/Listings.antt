-- ===== src/Server/State/Listings.antt =====
-- state.rs: what `task_snapshots` lists.
use bigtop.Common.{
  ◌≡◌, Bool, true, some, List, [], ◌∷◌, HashMap, get, values, filter, arith, All, All-filter,
  All-imp, String, ◌==◌, eq_iff, Bool-cases, inl, inr, subst,
}
use bigtop.Common.Sort.{sort_by}
use bigtop.Common.Sorted.{In, In-sort_by, In-filter, Sorted, Sorted-sort_by}
use bigtop.Common.Distinct.{All-sort_by}
use bigtop.Core.Ids.{TaskId, SnapshotId}
use bigtop.Core.Error.{ok}
use bigtop.Core.Snapshots.{SnapshotRecord}
use bigtop.Server.State.{StateInner}
use bigtop.Server.State.Views.{older, task_snapshots}

pub In-values :
    {V : Type 0} (k : String) (v : V) (m : HashMap V) → get k m ≡ some v → In v (values m)
unfolding get
In-values k v [] g = absurd (ground arith)
In-values k v ((j, w) ∷ m) g = elim (Bool-cases (j == k)) [
  | inl here ↦ subst (λ x. In v (x ∷ values m)) (ground arith) In.first
  | inr there ↦ In.later (In-values k v m (ground arith))
]

All-true : {A : Type 0} (xs : List A) → All (λ x. Unit {0}) xs
All-true [] = tt
All-true (x ∷ xs) = (tt, All-true xs)

-- `out` is the list of the task's snapshots, oldest first.
pub record Listed (s : StateInner) (task_id : TaskId) (out : List SnapshotRecord) : Type 0 where
  pub sorted : Sorted older out
  pub sound : All (λ r. (r.task_id == task_id) ≡ true) out
  pub complete :
      (k : SnapshotId) (r : SnapshotRecord)
      → get k s.snapshots ≡ some r
      → r.task_id ≡ task_id
      → In r out

-- The snapshots that are listed for a known task are in ascending order of creation, all belong to
-- the task, and no snapshot of the task is left out.
pub task_snapshots-Listed :
    (s : StateInner) (task_id : TaskId) (out : List SnapshotRecord)
    → task_snapshots s task_id ≡ ok out
    → Listed s task_id out
unfolding task_snapshots
task_snapshots-Listed s task_id out h = subst (Listed s task_id) e (record {
  sorted = Sorted-sort_by older (λ a b n. ground arith) own;
  sound = All-sort_by older _ own (
      All-imp _ _ own (λ r p. p.1)
        (All-filter (λ r. Unit {0}) mine (values s.snapshots) (All-true (values s.snapshots))));
  complete = λ k r g same. In-sort_by older r own (
      In-filter mine r (values s.snapshots) (ground (arith, eq_iff r.task_id task_id))
        (In-values k r s.snapshots g));
})
  where
    mine : SnapshotRecord → Bool
    mine r = r.task_id == task_id

    own : List SnapshotRecord
    own = filter mine (values s.snapshots)

    e : sort_by older own ≡ out
    e = ground arith
