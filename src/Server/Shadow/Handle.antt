-- ===== src/Server/Shadow/Handle.antt =====
-- harvest_shadow.rs: the handle through which the API feeds the audit, the mirror of the snapshot
-- records and the channel to the audit's thread.
use bigtop.Common.{ℕ, ◌+◌, ◌%◌, ◌^◌, Bool, List, [], ◌∷◌, ◌++◌, HashMap, insert, if◌then◌else◌}
use bigtop.Core.Ids.{TaskId, NodeId, SnapshotId}
use bigtop.Core.Snapshots.{SnapshotRecord}

pub record TrackCmd : Type 0 where
  pub snapshot_id : SnapshotId
  pub task_id : TaskId
  pub node_id : NodeId

-- `receiver` tells whether the thread still holds its end of the channel; `sent` is what the channel
-- has taken; `errors` is the counter of `ShadowStats`, an `AtomicU64`.
pub record ShadowHandle : Type 0 where
  pub mirror : HashMap SnapshotRecord
  pub sent : List TrackCmd
  pub receiver : Bool
  pub errors : ℕ

unfoldable pub mirror_snapshot : SnapshotRecord → ShadowHandle → ShadowHandle
mirror_snapshot r shadow = record shadow { mirror = insert r.id r shadow.mirror }

unfoldable pub notify_requested : SnapshotId → TaskId → NodeId → ShadowHandle → ShadowHandle
notify_requested snapshot_id task_id node_id shadow =
    if shadow.receiver
    then record shadow {
      sent =
          shadow.sent
          ++ record { snapshot_id = snapshot_id; task_id = task_id; node_id = node_id } ∷ [];
    }
    else record shadow { errors = (shadow.errors + 1) % 2 ^ 64 }
