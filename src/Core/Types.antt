-- ===== src/Core/Types.antt =====
-- crates/bigtop-core/src/types.rs: VM specs, task specs, tasks and nodes, and the `restore_task_spec`
-- of snapshots.rs, which needs them. A time is a number of nanoseconds since a fixed instant before
-- all times in use.
use bigtop.Common.{
  ℕ, ◌-◌, ◌/◌, String, Bool, true, false, Option, some, List, HashMap, leb, ltb, if◌then◌else◌,
}
use bigtop.Common.Int.{ℤ}
use bigtop.Core.Ids.{JobId, TaskId, NodeId}
use bigtop.Core.Resources.{Resources}
use bigtop.Core.Snapshots.{SnapshotLoadSpec, SnapshotPolicy, SnapshotRecord}
use bigtop.Core.Network.{Ipv4Addr, NetworkSpec, ServiceSpec, NetworkAssignment}
use Prim.Native.String.{◌++◌ as append}

abbrev pub heartbeat_timeout_secs : ℕ
heartbeat_timeout_secs = 10

pub record VmSpec : Type 0 where
  pub kernel_image : String
  pub rootfs : String
  pub vcpu_count : ℕ
  pub mem_mb : ℕ
  pub boot_args : Option String
  pub boot_snapshot : Option SnapshotLoadSpec

pub record TaskSpec : Type 0 where
  pub name : String
  pub command : String
  pub args : List String
  pub env : HashMap String
  pub resources : Resources
  pub count : ℕ
  pub vm : VmSpec
  pub node_affinity : Option NodeId
  pub snapshot_policy : SnapshotPolicy
  pub network : NetworkSpec
  pub service : ServiceSpec

pub record JobSpec : Type 0 where
  pub name : String
  pub tasks : List TaskSpec

pub data TaskState : Type 0 where
  pending assigned running succeeded failed : TaskState

unfoldable pub is_terminal : TaskState → Bool
is_terminal succeeded = true
is_terminal failed = true
is_terminal _ = false

-- `impl Display for TaskState`
unfoldable pub to_string : TaskState → String
to_string pending = "pending"
to_string assigned = "assigned"
to_string running = "running"
to_string succeeded = "succeeded"
to_string failed = "failed"

-- The tests `state == TaskState::Pending`, `state == TaskState::Running` and
-- `matches!(state, Assigned | Running)`.
unfoldable pub is_pending : TaskState → Bool
is_pending pending = true
is_pending _ = false

unfoldable pub is_assigned : TaskState → Bool
is_assigned assigned = true
is_assigned _ = false

unfoldable pub is_running : TaskState → Bool
is_running running = true
is_running _ = false

unfoldable pub holds_resources : TaskState → Bool
holds_resources assigned = true
holds_resources running = true
holds_resources _ = false

pub record Task : Type 0 where
  pub id : TaskId
  pub job_id : JobId
  pub name : String
  pub spec : TaskSpec
  pub state : TaskState
  pub assigned_node : Option NodeId
  pub exit_code : Option ℤ
  pub network : Option NetworkAssignment

pub record NodeInfo : Type 0 where
  pub id : NodeId
  pub name : String
  pub addr : String
  pub underlay_ip : Option Ipv4Addr
  pub total : Resources
  pub used : Resources
  pub last_heartbeat : ℕ

-- Whole seconds since the last heartbeat, rounded toward zero; a heartbeat from the future gives a
-- number that is not positive, and the node is alive.
unfoldable pub is_alive : NodeInfo → ℕ → Bool
is_alive node now =
    if ltb now node.last_heartbeat
    then true
    else leb ((now - node.last_heartbeat) / 1_000_000_000) heartbeat_timeout_secs

-- `SnapshotRecord::restore_task_spec`
unfoldable pub restore_task_spec : SnapshotRecord → Task → TaskSpec
restore_task_spec r task = record task.spec {
  name = append task.spec.name "-restored";
  node_affinity = some r.node_id;
  snapshot_policy = SnapshotPolicy.never;
  vm = record task.spec.vm {
    boot_snapshot = some (record {
      mem_file_path = r.spec.mem_file_path;
      snapshot_path = r.spec.snapshot_path;
      enable_diff_snapshots = false;
    });
  };
}
