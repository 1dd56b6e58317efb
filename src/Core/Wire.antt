-- ===== src/Core/Wire.antt =====
-- crates/bigtop-core/src/api.rs: the shapes of the HTTP API that the server's operations take and
-- return.
use bigtop.Common.{ℕ, String, Option, List}
use bigtop.Core.Ids.{JobId, TaskId, NodeId, SnapshotId}
use bigtop.Core.Snapshots.{SnapshotType, SnapshotState, SnapshotSpec}
use bigtop.Common.Int.{ℤ}
use bigtop.Core.Network.{Ipv4Addr}
use bigtop.Core.Resources.{Resources}
use bigtop.Core.Types.{TaskState}

pub record RegisterNodeRequest : Type 0 where
  pub name : String
  pub addr : String
  pub total : Resources
  pub underlay_ip : Option Ipv4Addr

pub record HeartbeatRequest : Type 0 where
  pub underlay_ip : Option Ipv4Addr

pub record RegisterNodeResponse : Type 0 where
  pub id : NodeId

pub record SetTaskStateRequest : Type 0 where
  pub state : TaskState
  pub exit_code : Option ℤ

pub record PushLogsRequest : Type 0 where
  pub lines : List String

pub record LogLinesResponse : Type 0 where
  pub lines : List String

pub record SubmitJobResponse : Type 0 where
  pub job_id : JobId

pub record RequestSnapshotResponse : Type 0 where
  pub snapshot_id : SnapshotId

pub record RequestSnapshotRequest : Type 0 where
  pub snapshot_type : SnapshotType
  pub mem_file_path : Option String
  pub snapshot_path : Option String

pub record PendingSnapshot : Type 0 where
  pub snapshot_id : SnapshotId
  pub task_id : TaskId
  pub spec : SnapshotSpec

pub record ReportSnapshotResult : Type 0 where
  pub state : SnapshotState
  pub node_id : NodeId
  pub mem_file_path : Option String
  pub snapshot_path : Option String
  pub error : Option String

pub record OverlayPeer : Type 0 where
  pub node_id : NodeId
  pub underlay_ip : Ipv4Addr

pub record ServiceEndpoint : Type 0 where
  pub task_id : TaskId
  pub ip : Ipv4Addr

pub record ServiceInfo : Type 0 where
  pub name : String
  pub endpoints : List ServiceEndpoint

pub record JobSummary : Type 0 where
  pub id : JobId
  pub name : String
  pub created_at : ℕ
  pub tasks : ℕ
