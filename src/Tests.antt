-- ===== src/Tests.antt =====
-- Concrete clusters on which the theorems are applied.
mod Addresses
mod Operations
mod Lifetimes
mod Restarts
mod Boots
mod Api
mod Agents
mod Audits
mod Commands
use bigtop.Common.{ℕ, zero, suc, String, true, Option, none, some, List, [], ◌∷◌}
use bigtop.Core.Ids.{TaskId}
use bigtop.Core.Resources.{Resources}
use bigtop.Core.Types.{VmSpec, TaskSpec, JobSpec, TaskState}
use bigtop.Core.Snapshots.{SnapshotPolicy, SnapshotType}
use bigtop.Core.Wire.{RequestSnapshotRequest}
use bigtop.Server.State.{StateInner}
use bigtop.Server.State.Jobs.{create_job}
use bigtop.Server.State.Nodes.{register_node}
use bigtop.Server.State.Tasks.{set_task_state}
use bigtop.Server.State.Snapshots.{request_snapshot}
use bigtop.Server.Scheduler.{tick}
use bigtop.Server.Replay.Recovery.{opened}

-- A JSON library that knows the empty map only.
abbrev pub to_json : List (String × List String) → Option String
to_json [] = some "{}"
to_json (e ∷ es) = none

abbrev pub vm : VmSpec
vm = record {
  kernel_image = "vmlinux";
  rootfs = "rootfs.ext4";
  vcpu_count = 1;
  mem_mb = 128;
  boot_args = none;
  boot_snapshot = none;
}

abbrev pub web : TaskSpec
web = record {
  name = "web";
  command = "serve";
  args = [];
  env = [];
  resources = record { cpu_millis = 500; mem_mb = 128 };
  count = 2;
  vm = vm;
  node_affinity = none;
  snapshot_policy = SnapshotPolicy.never;
  network = record { enabled = true; hostname = none };
  service = record { name = none; discover = [] };
}

abbrev pub job : JobSpec
job = record { name = "site"; tasks = web ∷ [] }

abbrev pub fresh : ℕ → TaskId
fresh zero = "task-2"
fresh (suc n) = "task-3"

-- A node registers, a job of two tasks is submitted, a tick places both, one starts to run, and
-- a snapshot of it is requested.
abbrev pub total : Resources
total = record { cpu_millis = 2000; mem_mb = 2048 }

abbrev pub registered : StateInner
registered = (register_node "node-1" "alpha" "10.0.0.1:7000" total none 0 (opened [])).1

abbrev pub submitted : StateInner
submitted = (create_job job "job-1" fresh 1 registered).1

abbrev pub placed : StateInner
placed = (tick to_json 2 submitted).1

abbrev pub started : StateInner
started = (set_task_state "task-2" TaskState.running none placed).1

abbrev pub request : RequestSnapshotRequest
request = record { snapshot_type = SnapshotType.full; mem_file_path = none; snapshot_path = none }

abbrev pub asked : StateInner
asked = (request_snapshot "snap-1" "task-2" request 4 started).1
