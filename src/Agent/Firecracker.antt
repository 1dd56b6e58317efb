-- ===== src/Agent/Firecracker.antt =====
-- crates/bigtop-agent/src/firecracker.rs: what a microVM is configured with, and the bodies of the
-- REST calls, which are JSON values; with the snapshot bodies and paths of snapshot.rs. `hash_key` is
-- the standard library's hasher, `base64` the standard encoding of a text's bytes.
pub mod Cmdline
pub mod Machine
pub mod Boot
pub mod Record
pub mod Spawn
pub mod Quiet
pub mod Grows
pub mod Taps
pub mod Sizes
pub mod Quote
pub mod Line
use Prim.Native.String.{◌++◌, slice}
use bigtop.Common.{
  ℕ, ◌+◌, ◌-◌, ◌/◌, ◌%◌, ◌^◌, ◌*◌, Bool, true, false, ◌&&◌, Option, none, some, List, [], ◌∷◌,
  String, map, HashMap, ltb, eqb, leb, ◌==◌, if◌then◌else◌, Ordering,
}
use Prim.Native.String.{compare}
use bigtop.Common.Decimal.{show}
use bigtop.Common.Sort.{sort_by, le_str}
use bigtop.Common.Text.{replace, path_join}
use bigtop.Core.Ids.{TaskId, SnapshotId}
use bigtop.Core.Mac.{MacAddr, mac_for_task}
use bigtop.Core.Network.{Ipv4Addr, NetworkAssignment}
use bigtop.Core.Snapshots.{SnapshotType, full, diff, SnapshotSpec, SnapshotLoadSpec}
use bigtop.Core.Types.{Task}
use bigtop.Server.State.Jobs.{is_blank}
use bigtop.Server.Scheduler.Services.{show_ip}
use bigtop.Agent.Shell.{join}
use bigtop.Agent.Jailer
use bigtop.Agent.Jailer.{JailerOptions, jailed_api_sock, host_path}

mutual
  pub data Json : Type 0 where
    string : String → Json
    strings : List String → Json
    number : ℕ → Json
    boolean : Bool → Json
    object : Fields → Json

  -- The fields of an object, in the order in which the source names them.
  pub data Fields : Type 0 where
    done : Fields
    field : String → Json → Fields → Fields

pub record FirecrackerConfig : Type 0 where
  pub bin : String
  pub vm_dir : String
  pub boot_timeout : ℕ
  pub jailer : Option JailerOptions
  pub overlay_vni : Option ℕ

-- ---------------------------------------------------------------- paths

unfoldable pub vm_task_dir : FirecrackerConfig → TaskId → String
unfolding path_join
vm_task_dir config task_id = path_join config.vm_dir task_id

-- The host's path of a file: in the jail, if there is one, and else in the task's directory.
abbrev pub placed : FirecrackerConfig → TaskId → String → String → String
placed config task_id jailed name = elim config.jailer [
  | none ↦ path_join (vm_task_dir config task_id) name
  | some opts ↦ host_path (Jailer.new task_id opts config.bin) jailed
]

unfoldable pub api_socket_for : FirecrackerConfig → TaskId → String
unfolding vm_task_dir path_join Jailer.new host_path
api_socket_for config task_id = placed config task_id jailed_api_sock "fc.sock"

abbrev pub jailed_vsock_sock : String
jailed_vsock_sock = "/vsock.sock"

unfoldable pub vsock_backing_host_path : FirecrackerConfig → TaskId → String
unfolding vm_task_dir path_join Jailer.new host_path
vsock_backing_host_path config task_id = placed config task_id jailed_vsock_sock "vsock.sock"

unfoldable pub vsock_device_path : FirecrackerConfig → TaskId → String
unfolding vsock_backing_host_path
vsock_device_path config task_id = elim config.jailer [
  | none ↦ vsock_backing_host_path config task_id
  | some opts ↦ jailed_vsock_sock
]

abbrev pub vsock_log_port : ℕ
vsock_log_port = 4668

unfoldable pub vsock_listen_path : FirecrackerConfig → TaskId → String
unfolding vsock_backing_host_path show
vsock_listen_path config task_id =
    vsock_backing_host_path config task_id ++ "_" ++ show vsock_log_port

unfoldable pub resolve_snapshot_paths :
    SnapshotSpec → String → TaskId → SnapshotId → String × String
unfolding path_join
resolve_snapshot_paths spec vm_dir task_id snapshot_id =
    let dir = path_join (path_join vm_dir task_id) "snapshots" in
    (
      if spec.mem_file_path == ""
          then path_join dir (snapshot_id ++ ".mem")
          else spec.mem_file_path,
      if spec.snapshot_path == ""
          then path_join dir (snapshot_id ++ ".snap")
          else spec.snapshot_path,
    )

-- ---------------------------------------------------------------- numbers

abbrev max : ℕ → ℕ → ℕ
max a b = if ltb a b then b else a

-- `u64::saturating_add`, `u32::try_from(…).unwrap_or(u32::MAX)`
unfoldable pub vcpu_for : ℕ → ℕ → ℕ
vcpu_for cpu_millis vm_vcpu =
    let sum = if ltb (cpu_millis + 999) (2 ^ 64) then cpu_millis + 999 else 2 ^ 64 - 1 in
    let from_millis = if ltb (sum / 1000) (2 ^ 32) then sum / 1000 else 2 ^ 32 - 1 in
    max (max from_millis vm_vcpu) 1

-- ---------------------------------------------------------------- bodies

unfoldable pub machine_config_body : ℕ → ℕ → Json
machine_config_body vcpu_count mem_mb = object (
    field "vcpu_count" (number vcpu_count)
      (field "mem_size_mib" (number mem_mb) (field "smt" (boolean false) done)))

unfoldable pub boot_source_body : String → String → Json
boot_source_body kernel_image boot_args =
    object
      (field "kernel_image_path" (string kernel_image) (field "boot_args" (string boot_args) done))

unfoldable pub drive_body : String → Json
drive_body rootfs = object (
    field "drive_id" (string "rootfs") (
      field "path_on_host" (string rootfs)
        (field "is_root_device" (boolean true) (field "is_read_only" (boolean false) done))))

unfoldable pub instance_start_body : Json
instance_start_body = object (field "action_type" (string "InstanceStart") done)

unfoldable pub vsock_device_body : ℕ → String → Json
vsock_device_body guest_cid uds_path =
    object (field "guest_cid" (number guest_cid) (field "uds_path" (string uds_path) done))

unfoldable pub network_interface_body : String → String → String → Json
network_interface_body iface_id guest_mac host_dev_name = object (
    field "iface_id" (string iface_id)
      (field "guest_mac" (string guest_mac) (field "host_dev_name" (string host_dev_name) done)))

abbrev type_name : SnapshotType → String
type_name full = "Full"
type_name diff = "Diff"

unfoldable pub snapshot_create_body : SnapshotSpec → Json
snapshot_create_body spec = object (
    field "snapshot_type" (string (type_name spec.snapshot_type)) (
      field "snapshot_path" (string spec.snapshot_path)
        (field "mem_file_path" (string spec.mem_file_path) done)))

unfoldable pub snapshot_load_body : SnapshotLoadSpec → Json
snapshot_load_body spec = object (
    field "snapshot_path" (string spec.snapshot_path) (
      field "mem_backend"
        (object (
          field "backend_type" (string "File")
            (field "backend_path" (string spec.mem_file_path) done)))
        (field "enable_diff_snapshots" (boolean spec.enable_diff_snapshots)
          (field "resume_vm" (boolean true) done))))

abbrev hex_digit : ℕ → String
hex_digit n = slice "0123456789abcdef" n (n + 1)

-- `{low:08x}`: the digits of the low 32 bits, from the 16⁷s on.
unfoldable pub hex8 : ℕ → ℕ → String
hex8 ℕ.zero low = ""
hex8 (ℕ.suc k) low = hex8 k (low / 16) ++ hex_digit (low % 16)

module _ (hash_key : String → ℕ) where
  -- network.rs: `tap_name_for`
  unfoldable pub tap_name_for : TaskId → String
  unfolding hex8
  tap_name_for task_id = "bt-" ++ hex8 8 (hash_key task_id % 2 ^ 32)

  unfoldable pub guest_cid_for : TaskId → ℕ
  guest_cid_for task_id = 3 + hash_key task_id % (2 ^ 32 - 1 - 3)
