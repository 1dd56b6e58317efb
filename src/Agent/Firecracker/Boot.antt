-- ===== src/Agent/Firecracker/Boot.antt =====
-- firecracker.rs: the stages of a boot, the TAP device, the process, the listener and the REST calls.
-- The hasher is the parameter `hash_key`.
use Prim.Native.String.{◌++◌ as append}
use bigtop.Common.{
  ℕ, Bool, true, false, not, ◌&&◌, Option, none, some, List, [], ◌∷◌, String, is_some,
  if◌then◌else◌,
}
use bigtop.Common.Text.{path_join}
use bigtop.Core.Ids.{TaskId}
use bigtop.Core.Mac.{mac_for_task}
use bigtop.Core.Network.{NetworkAssignment}
use bigtop.Core.Types.{Task}
use bigtop.Server.State.Jobs.{is_blank}
use bigtop.Agent.Shell.{AgentError, network}
use bigtop.Agent.Overlay.{enslave_to_bridge, show_mac}
use bigtop.Agent.Tap.{TapDevice, create, set_up, move_to_netns, destroy}
use bigtop.Agent.Jailer
use bigtop.Agent.Jailer.{JailerOptions, argv, jailed_api_sock, jailed_log_path}
use bigtop.Agent.Firecracker.{
  FirecrackerConfig, vm_task_dir, vsock_device_path, vsock_listen_path, machine_config_body,
  boot_source_body, drive_body, instance_start_body, vsock_device_body, network_interface_body,
  tap_name_for, guest_cid_for,
}
use bigtop.Agent.Firecracker.Machine.{
  Step, Machine, AgentResult, ok, err, Act, ◌>>=◌, ◌>>◌, and_then, pure, raise, perform, try_exists,
  on_shell, remove_stale, fc_put,
}

pub record FirecrackerRuntime : Type 0 where
  pub config : FirecrackerConfig
  pub vsock_hub : Bool

abbrev no_address : AgentError
no_address = network "task has networking enabled but the server assigned no IP"

-- `jailer.as_ref().and_then(|opts| opts.netns.as_ref())`
abbrev pub netns_of : Option JailerOptions → Option String
netns_of none = none
netns_of (some opts) = opts.netns

abbrev pub move_if : TapDevice → Option String → Act (Unit {0})
move_if tap none = pure tt
move_if tap (some netns) = on_shell (move_to_netns tap netns)

-- The block `configured` of `setup_tap`.
unfoldable pub configured : FirecrackerConfig → TapDevice → Act (Unit {0})
unfolding set_up enslave_to_bridge move_to_netns
configured config tap = do
  on_shell (set_up tap)
  if is_some config.overlay_vni && not (is_some (netns_of config.jailer))
      then on_shell (enslave_to_bridge tap.name)
      else pure tt
  move_if tap (netns_of config.jailer)

-- An error behind which the device is destroyed, whatever becomes of that.
abbrev pub or_destroy {ℓ} :
    {A : Type ℓ} → Option TapDevice → AgentResult A × Machine → AgentResult A × Machine
or_destroy tap (ok a, m) = (ok a, m)
or_destroy none (err e, m) = (err e, m)
or_destroy (some tap) (err e, m) = (err e, record m { shell = (destroy tap m.shell).1 })

-- `spawn_vmm`: the argument vector, and the jailer's for the record.
unfoldable pub spawn_vmm : FirecrackerConfig → Task → String → Act (Option (List String))
unfolding Jailer.new argv vm_task_dir perform
spawn_vmm config task api_sock = elim config.jailer [
  | some opts ↦
      let line =
        argv (Jailer.new task.id opts config.bin) (
          "--api-sock" ∷ jailed_api_sock ∷ "--log-path" ∷ jailed_log_path ∷ "--id" ∷ task.id
          ∷ []) in
      (perform (Step.launch line) >> pure (some line))
  | none ↦
      perform (
        Step.launch (
          config.bin
          ∷ "--api-sock"
          ∷ api_sock
          ∷ "--log-path"
          ∷ path_join (vm_task_dir config task.id) "firecracker.log"
          ∷ "--id"
          ∷ task.id
          ∷ []))
      >> pure none
]

-- `start_vsock_server`, up to the task that serves the listener; whether there is a stop signal.
unfoldable pub start_vsock_server : FirecrackerRuntime → TaskId → Act Bool
unfolding remove_stale perform vsock_listen_path
start_vsock_server self task_id = if not self.vsock_hub then pure false else do
  remove_stale (vsock_listen_path self.config task_id)
  perform (Step.bind (vsock_listen_path self.config task_id))
  pure true

-- One image: the loop of `spawn`.
abbrev pub check_image : String → String → Act (Unit {0})
check_image label path = try_exists >>= λ found.
    if found
    then pure tt
    else raise (AgentError.image_missing (append "vm." (append label (append " not found: " path))))

unfoldable pub check_images : Task → Act (Unit {0})
unfolding try_exists is_blank
check_images task =
    if is_blank task.spec.vm.kernel_image
    then raise (AgentError.image_missing "vm.kernel_image is empty")
    else (if is_blank task.spec.vm.rootfs
        then raise (AgentError.image_missing "vm.rootfs is empty")
        else (check_image "kernel_image" task.spec.vm.kernel_image
            >> check_image "rootfs" task.spec.vm.rootfs))

module _ (hash_key : String → ℕ) where
  unfoldable pub setup_tap : FirecrackerConfig → Task → Act (Option TapDevice)
  unfolding configured create destroy tap_name_for
  setup_tap config task = if not task.spec.network.enabled then pure none else elim task.network [
    | none ↦ raise no_address
    | some assigned ↦
        let tap : TapDevice = record { name = tap_name_for hash_key task.id } in
        (on_shell (create tap.name) >> λ m.
        and_then (or_destroy (some tap) (configured config tap m)) λ _. pure (some tap))
  ]

  -- The calls that `configure` makes for the network interface.
  abbrev pub attach : String → Task → Bool → Option NetworkAssignment → Act (Unit {0})
  attach sock task false assigned = pure tt
  attach sock task true none = raise no_address
  attach sock task true (some assigned) = fc_put sock "/network-interfaces/eth0" (
      network_interface_body "eth0" (show_mac (mac_for_task hash_key task.id))
        (tap_name_for hash_key task.id))

  unfoldable pub configure : FirecrackerRuntime → String → Task → ℕ → ℕ → String → Act (Unit {0})
  unfolding fc_put machine_config_body boot_source_body drive_body vsock_device_body
      network_interface_body instance_start_body mac_for_task tap_name_for guest_cid_for
      vsock_device_path show_mac
  configure self sock task vcpu_count mem_mb args = do
    fc_put sock "/machine-config" (machine_config_body vcpu_count mem_mb)
    fc_put sock "/boot-source" (boot_source_body task.spec.vm.kernel_image args)
    fc_put sock "/drives/rootfs" (drive_body task.spec.vm.rootfs)
    if self.vsock_hub
        then fc_put sock "/vsock" (
            vsock_device_body (guest_cid_for hash_key task.id)
              (vsock_device_path self.config task.id))
        else pure tt
    attach sock task task.spec.network.enabled task.network
    fc_put sock "/actions" instance_start_body
