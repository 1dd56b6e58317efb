-- ===== src/Core/Ids.antt =====
-- crates/bigtop-core/src/ids.rs: an id is a newtype over a text, compared and hashed as that text. The
-- operations of the server take the ids that they generate as arguments; `generate` is modelled here,
-- with the clock and the process id as arguments and the global counter as a state.
pub mod Fresh
use Prim.Native.String.{◌++◌}
use bigtop.Common.{ℕ, ◌+◌, ◌%◌, ◌^◌, String}
use bigtop.Common.Hex.{hex}

abbrev pub JobId : Type 0
JobId = String

abbrev pub TaskId : Type 0
TaskId = String

abbrev pub NodeId : Type 0
NodeId = String

abbrev pub SnapshotId : Type 0
SnapshotId = String

-- `fresh_id`, with the counter, an `AtomicU64`, before and behind it. `nanos` is the time since the
-- epoch, 0 where the clock is before it.
unfoldable pub fresh_id : String → ℕ → ℕ → ℕ → String × ℕ
fresh_id prefix nanos pid counter =
    (prefix ++ "-" ++ hex nanos ++ "-" ++ hex pid ++ "-" ++ hex counter, (counter + 1) % 2 ^ 64)

-- `TaskId::generate`, and so on for the other types: one generator for each prefix.
pub data Kind : Type 0 where
  job task node snapshot : Kind

unfoldable pub prefix_of : Kind → String
prefix_of job = "job"
prefix_of task = "task"
prefix_of node = "node"
prefix_of snapshot = "snap"

unfoldable pub generate : Kind → ℕ → ℕ → ℕ → String × ℕ
unfolding prefix_of fresh_id
generate kind = fresh_id (prefix_of kind)
