-- ===== src/Cli/Node.antt =====
-- main.rs: the `agent` and `server` commands, up to the call of the library that runs them.
use bigtop.Common.{
  ℕ, ◌≡◌, ◌⊎◌, arith, Bool, true, false, ◌&&◌, not, Option, none, some, String, inl, inr, is_some,
  unwrap_or, if◌then◌else◌,
}
use bigtop.Core.Network.{Ipv4Addr}
use bigtop.Agent.Jailer.{JailerOptions}
use bigtop.Agent.Firecracker.{FirecrackerConfig}
use bigtop.Agent.Control
use bigtop.Agent.Control.{RuntimeKind, AgentConfig, runtime_of, auto_runtime, is_firecracker}

pub data RuntimeChoice : Type 0 where
  firecracker process auto : RuntimeChoice

pub record AgentOptions : Type 0 where
  pub server : String
  pub name : Option String
  pub runtime : RuntimeChoice
  pub vm_dir : String
  pub firecracker_bin : String
  pub jailer : Bool
  pub jailer_bin : String
  pub jailer_uid : ℕ
  pub jailer_gid : ℕ
  pub chroot_base_dir : String
  pub netns : Option String
  pub vni : Option ℕ
  pub underlay_ip : Option Ipv4Addr
  pub api_token : Option String

-- `opts.runtime == RuntimeChoice::Process`
unfoldable pub is_process : RuntimeChoice → Bool
is_process process = true
is_process _ = false

-- `opts.jailer.then(..)`
abbrev pub jailer_options : AgentOptions → Option JailerOptions
jailer_options opts =
    if opts.jailer
    then some (record {
      bin = opts.jailer_bin;
      uid = opts.jailer_uid;
      gid = opts.jailer_gid;
      chroot_base_dir = opts.chroot_base_dir;
      netns = opts.netns;
      daemonize = false;
    })
    else none

-- The configuration of the microVM runtime, the rest from the default, whose boot timeout is ten
-- seconds.
abbrev pub fc_config : AgentOptions → FirecrackerConfig
fc_config opts = record {
  bin = opts.firecracker_bin;
  vm_dir = opts.vm_dir;
  boot_timeout = 10_000;
  jailer = jailer_options opts;
  overlay_vni = opts.vni;
}

unfoldable pub kind_of : Bool → AgentOptions → RuntimeChoice → RuntimeKind
unfolding runtime_of auto_runtime
kind_of kvm opts firecracker = RuntimeKind.firecracker (runtime_of (fc_config opts))
kind_of kvm opts process = RuntimeKind.process
kind_of kvm opts auto = auto_runtime kvm (fc_config opts)

-- `cmd_agent`, with the environment's `HOSTNAME` and whether `/dev/kvm` exists: what `run_agent` is
-- called with.
unfoldable pub cmd_agent :
    Option String → Bool → AgentOptions → (AgentConfig × RuntimeKind) ⊎ String
unfolding is_process kind_of Control.new
cmd_agent hostname kvm opts =
    if is_some opts.vni && not (is_some opts.underlay_ip)
    then inr "--vni requires --underlay-ip"
    else (if is_some opts.vni && is_process opts.runtime
        then inr "--vni requires the firecracker runtime (not --runtime process)"
        else inl (
          record (Control.new opts.server (unwrap_or (unwrap_or "agent" hostname) opts.name)) {
            underlay_ip = opts.underlay_ip;
            overlay_vni = opts.vni;
            api_token = opts.api_token;
          },
          kind_of kvm opts opts.runtime,
        ))

-- The agent that a command line starts with a network identifier has its underlay address and runs
-- Firecracker, unless the runtime was chosen by itself on a machine without KVM.
cmd_agent-Consistent :
    (hostname : Option String) (kvm : Bool) (opts : AgentOptions) (cfg : AgentConfig)
    (kind : RuntimeKind) (vni : ℕ)
    → cmd_agent hostname kvm opts ≡ inl (cfg, kind)
    → cfg.overlay_vni ≡ some vni
    → (is_some cfg.underlay_ip ≡ true)
      × ((is_firecracker kind ≡ true) ⊎ ((opts.runtime ≡ auto) × (kvm ≡ false)))
unfolding cmd_agent is_process kind_of auto_runtime
cmd_agent-Consistent hostname kvm opts cfg kind vni h v = ground arith
