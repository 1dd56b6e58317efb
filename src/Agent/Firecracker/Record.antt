-- ===== src/Agent/Firecracker/Record.antt =====
-- firecracker.rs: `launch_record`, what the file `bigtop-vm.json` holds.
use bigtop.Common.{ℕ, Bool, true, false, Option, none, some, List, [], ◌∷◌, String}
use bigtop.Core.Ids.{TaskId}
use bigtop.Core.Mac.{mac_for_task}
use bigtop.Core.Network.{NetworkAssignment}
use bigtop.Core.Snapshots.{SnapshotLoadSpec}
use bigtop.Core.Types.{Task}
use bigtop.Server.Scheduler.Services.{show_ip}
use bigtop.Agent.Overlay.{show_mac}
use bigtop.Agent.Firecracker.{Json, Fields, tap_name_for}

abbrev boot_fields : Option SnapshotLoadSpec → Fields → Fields
boot_fields none rest = Fields.field "boot" (Json.string "fresh") rest
boot_fields (some load) rest = Fields.field "boot" (Json.string "snapshot") (
    Fields.field "snapshot_path" (Json.string load.snapshot_path)
      (Fields.field "mem_file_path" (Json.string load.mem_file_path) rest))

abbrev jailer_fields : Option (List String) → Fields → Fields
jailer_fields none rest = rest
jailer_fields (some line) rest = Fields.field "jailer_argv" (Json.strings line) rest

abbrev env_fields : List (String × String) → Fields
env_fields [] = Fields.done
env_fields ((key, val) ∷ env) = Fields.field key (Json.string val) (env_fields env)

module _ (hash_key : String → ℕ) where
  abbrev network_fields : TaskId → Bool → Option NetworkAssignment → Fields
  network_fields id false assigned = Fields.done
  network_fields id true none = Fields.done
  network_fields id true (some assigned) =
      Fields.field "network"
        (Json.object (
          Fields.field "iface_id" (Json.string "eth0") (
            Fields.field "guest_mac" (Json.string (show_mac (mac_for_task hash_key id))) (
              Fields.field "tap_name" (Json.string (tap_name_for hash_key id)) (
                Fields.field "ip" (Json.string (show_ip assigned.ip))
                  (Fields.field "gateway" (Json.string (show_ip assigned.gateway)) Fields.done))))))
        Fields.done

  unfoldable pub launch_record :
      String
      → Task
      → Option SnapshotLoadSpec
      → ℕ
      → ℕ
      → String
      → String
      → Option (List String)
      → Json
  unfolding mac_for_task tap_name_for show_mac show_ip
  launch_record created_at task boot vcpu_count mem_mb args api_sock line = Json.object (
      Fields.field "task_id" (Json.string task.id) (
        Fields.field "job_id" (Json.string task.job_id) (
          Fields.field "created_at" (Json.string created_at) (
            Fields.field "vcpu_count" (Json.number vcpu_count) (
              Fields.field "mem_mb" (Json.number mem_mb) (
                Fields.field "kernel_image" (Json.string task.spec.vm.kernel_image) (
                  Fields.field "rootfs" (Json.string task.spec.vm.rootfs) (
                    Fields.field "boot_args" (Json.string args) (
                      Fields.field "command" (Json.string task.spec.command) (
                        Fields.field "args" (Json.strings task.spec.args) (
                          Fields.field "env" (Json.object (env_fields task.spec.env)) (
                            Fields.field "api_socket" (Json.string api_sock) (
                              boot_fields boot (
                                jailer_fields line (
                                  network_fields task.id task.spec.network.enabled
                                    task.network)))))))))))))))
