-- ===== src/Agent/Firecracker/Spawn.antt =====
-- firecracker.rs: how a task's microVM is booted, and how it is snapshotted. The parameters are the
-- hasher, the base64 encoding, the time of the launch record, and `Path::parent`.
use bigtop.Common.{ℕ, Bool, not, Option, none, some, String, is_some, ltb, if◌then◌else◌}
use bigtop.Common.Text.{path_join}
use bigtop.Core.Ids.{TaskId, SnapshotId}
use bigtop.Core.Snapshots.{SnapshotSpec, SnapshotLoadSpec}
use bigtop.Core.Types.{Task}
use bigtop.Agent.Tap.{TapDevice, destroy}
use bigtop.Agent.Firecracker.{
  FirecrackerConfig, vm_task_dir, api_socket_for, resolve_snapshot_paths, vcpu_for,
  snapshot_create_body, snapshot_load_body,
}
use bigtop.Agent.Firecracker.Cmdline.{boot_args}
use bigtop.Agent.Firecracker.Machine.{
  Step, Machine, AgentResult, ok, err, Act, ◌>>=◌, ◌>>◌, pure, perform, remove_stale,
  wait_for_socket, fc_put,
}
use bigtop.Agent.Firecracker.Boot.{
  FirecrackerRuntime, or_destroy, setup_tap, configure, spawn_vmm, start_vsock_server, check_images,
}
use bigtop.Agent.Firecracker.Record.{launch_record}

pub record RunningTask : Type 0 where
  pub task_id : TaskId
  pub vm_dir : String
  pub vsock_stop : Bool
  pub tap : Option TapDevice

abbrev pub or_kill : AgentResult (Unit {0}) × Machine → AgentResult (Unit {0}) × Machine
or_kill (ok a, m) = (ok a, m)
or_kill (err e, m) = (err e, (perform Step.kill m).1)

-- The part of `spawn` in front of the TAP device.
unfoldable pub prepare : FirecrackerConfig → Task → Act (Unit {0})
unfolding check_images perform remove_stale api_socket_for vm_task_dir
prepare config task = do
  if not (is_some config.jailer) then check_images task else pure tt
  perform (Step.create_dir (vm_task_dir config task.id))
  if not (is_some config.jailer) then remove_stale (api_socket_for config task.id) else pure tt

module _ (hash_key : String → ℕ) (base64 : String → String) (created_at : String) where
  -- Configure and start, or load; a failure kills the process.
  abbrev pub boot_vmm :
      FirecrackerRuntime → String → Task → ℕ → ℕ → String → Option SnapshotLoadSpec → Act (Unit {0})
  boot_vmm self sock task vcpu_count mem_mb args none =
      configure hash_key self sock task vcpu_count mem_mb args
  boot_vmm self sock task vcpu_count mem_mb args (some load) =
      fc_put sock "/snapshot/load" (snapshot_load_body load)

  -- The block `launched` of `spawn`.
  unfoldable pub launched : FirecrackerRuntime → Task → Act Bool
  unfolding spawn_vmm launch_record wait_for_socket start_vsock_server configure fc_put
      snapshot_load_body vcpu_for boot_args api_socket_for vm_task_dir path_join perform
  launched self task =
      let sock = api_socket_for self.config task.id in
      let vcpu_count = vcpu_for task.spec.resources.cpu_millis task.spec.vm.vcpu_count in
      let mem_mb = if ltb task.spec.vm.mem_mb 64 then 64 else task.spec.vm.mem_mb in
      let args = boot_args base64 task.spec.vm.boot_args task in
      do
        line ← spawn_vmm self.config task sock
        perform (
            Step.write (path_join (vm_task_dir self.config task.id) "bigtop-vm.json") (
              launch_record hash_key created_at task task.spec.vm.boot_snapshot vcpu_count mem_mb
                args sock line))
        wait_for_socket sock self.config.boot_timeout
        stop ← start_vsock_server self task.id
        λ m. or_kill (boot_vmm self sock task vcpu_count mem_mb args task.spec.vm.boot_snapshot m)
        pure stop

  unfoldable pub spawn : FirecrackerRuntime → Task → Act RunningTask
  unfolding prepare setup_tap launched vm_task_dir destroy
  spawn self task = do
    prepare self.config task
    tap ← setup_tap hash_key self.config task
    stop ← λ m. or_destroy tap (launched self task m)
    pure (record {
      task_id = task.id;
      vm_dir = vm_task_dir self.config task.id;
      vsock_stop = stop;
      tap = tap;
    })

-- `create_dir_all` of a path's parent, if it has one.
abbrev create_parent : Option String → Act (Unit {0})
create_parent none = pure tt
create_parent (some dir) = perform (Step.create_dir dir)

unfoldable pub take_snapshot :
    (String → Option String)
    → FirecrackerConfig
    → TaskId
    → SnapshotId
    → SnapshotSpec
    → Act (String × String)
unfolding resolve_snapshot_paths perform fc_put snapshot_create_body api_socket_for
take_snapshot parent config task_id snapshot_id spec =
    let (mem, snap) = resolve_snapshot_paths spec config.vm_dir task_id snapshot_id in
    do
      create_parent (parent mem)
      fc_put (api_socket_for config task_id) "/snapshot/create" (
          snapshot_create_body (record {
            snapshot_type = spec.snapshot_type;
            mem_file_path = mem;
            snapshot_path = snap;
          }))
      pure (mem, snap)
