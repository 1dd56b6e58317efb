-- ===== src/Agent/Control.antt =====
-- crates/bigtop-agent/src/lib.rs: how an agent is configured, how it registers, and how it starts. The
-- replies of the server, the clock and the HTTP library's texts are arguments.
pub mod Starts
use Prim.Native.String.{◌++◌}
use mathlib.Core.List.{foldl}
use bigtop.Common.{
  ℕ, ◌+◌, Bool, true, false, not, ◌&&◌, Option, none, some, List, [], ◌∷◌, String, HashMap, insert,
  filter, leb, eqb, ◌==◌, if◌then◌else◌,
}
use bigtop.Common.Int.{ℤ}
use bigtop.Core.Ids.{TaskId, NodeId, SnapshotId}
use bigtop.Core.Network.{Ipv4Addr}
use bigtop.Core.Resources.{Resources}
use bigtop.Core.Snapshots.{SnapshotSpec}
use bigtop.Core.Types.{Task, TaskState}
use bigtop.Core.Wire.{RegisterNodeRequest, PendingSnapshot, RequestSnapshotRequest}
use bigtop.Agent.Shell.{AgentError, server, config, Shell}
use bigtop.Agent.Firecracker.{FirecrackerConfig}
use bigtop.Agent.Firecracker.Boot.{FirecrackerRuntime}
use bigtop.Agent.Firecracker.Machine.{AgentResult, ok, err}
use bigtop.Agent.Overlay
use bigtop.Agent.Overlay.{OverlayManager}
use bigtop.Agent.Requests.{spawn_new, dispatch}

-- ---------------------------------------------------------------- configuration

pub data RuntimeKind : Type 0 where
  process : RuntimeKind
  firecracker : FirecrackerRuntime → RuntimeKind

-- `FirecrackerRuntime::new`
unfoldable pub runtime_of : FirecrackerConfig → FirecrackerRuntime
runtime_of fc_config = record { config = fc_config; vsock_hub = false }

-- `with_vsock_hub`
unfoldable pub with_vsock_hub : FirecrackerRuntime → FirecrackerRuntime
with_vsock_hub self = record self { vsock_hub = true }

-- `kvm` tells whether `/dev/kvm` exists.
unfoldable pub auto_runtime : Bool → FirecrackerConfig → RuntimeKind
unfolding runtime_of
auto_runtime kvm fc_config = if kvm then RuntimeKind.firecracker (runtime_of fc_config) else process

-- Intervals are in milliseconds.
pub record AgentConfig : Type 0 where
  pub server_url : String
  pub name : String
  pub heartbeat_interval : ℕ
  pub poll_interval : ℕ
  pub underlay_ip : Option Ipv4Addr
  pub overlay_vni : Option ℕ
  pub api_token : Option String

unfoldable pub new : String → String → AgentConfig
new server_url name = record {
  server_url = server_url;
  name = name;
  heartbeat_interval = 2000;
  poll_interval = 1000;
  underlay_ip = none;
  overlay_vni = none;
  api_token = none;
}

-- ---------------------------------------------------------------- requests

-- `build_client`: the `Authorization` header that the client sends.
unfoldable pub build_client : (String → Bool) → Option String → AgentResult (Option String)
build_client is_header_value none = ok none
build_client is_header_value (some token) =
    if is_header_value ("Bearer " ++ token)
    then ok (some ("Bearer " ++ token))
    else err (config "API token is not a valid HTTP header value")

-- `check_ok`, of a response with this status and text; `show_status` is the HTTP library's.
unfoldable pub check_ok : (ℕ → String) → ℕ → String → AgentResult (Unit {0})
check_ok show_status status text =
    if leb 200 status && leb status 299
    then ok tt
    else (if eqb status 401
        then err (
            server (
              show_status status
              ++ ": "
              ++ text
              ++ " (bad or missing API token; pass --api-token or BIGTOP_API_TOKEN)"))
        else err (server (show_status status ++ ": " ++ text)))

-- `register`: the body of the request.
abbrev pub registration : AgentConfig → String → Resources → RegisterNodeRequest
registration cfg label resources = record {
  name = cfg.name;
  addr = label;
  total = resources;
  underlay_ip = cfg.underlay_ip;
}

-- `(!s.is_empty()).then(|| s.clone())`
abbrev pub if_some : String → Option String
if_some s = if not (s == "") then some s else none

-- `request_snapshot_record`: the body of the request.
unfoldable pub snapshot_request : SnapshotSpec → RequestSnapshotRequest
snapshot_request spec = record {
  snapshot_type = spec.snapshot_type;
  mem_file_path = if_some spec.mem_file_path;
  snapshot_path = if_some spec.snapshot_path;
}

-- ---------------------------------------------------------------- registration

-- `register_with_retry`: what each attempt comes to, and the time behind it, in milliseconds; `none`
-- where the agent still tries behind the last one.
unfoldable pub register_with_retry : ℕ → List (AgentResult NodeId × ℕ) → Option (AgentResult NodeId)
register_with_retry deadline [] = none
register_with_retry deadline ((ok id, now) ∷ attempts) = some (ok id)
register_with_retry deadline ((err e, now) ∷ attempts) =
    let rest = register_with_retry deadline attempts in
    if leb deadline now then some (err e) else rest

-- ---------------------------------------------------------------- the start

abbrev pub is_firecracker : RuntimeKind → Bool
is_firecracker process = false
is_firecracker (RuntimeKind.firecracker fc) = true

-- What runs when the loops start.
pub record Launched : Type 0 where
  pub node_id : NodeId
  pub manager : Option OverlayManager
  pub hub : Bool
  pub runtime : RuntimeKind

-- The runtime with the hub.
unfoldable pub hub_runtime : RuntimeKind → RuntimeKind
unfolding with_vsock_hub
hub_runtime process = process
hub_runtime (RuntimeKind.firecracker fc) = RuntimeKind.firecracker (with_vsock_hub fc)

abbrev pub launch : NodeId → Option OverlayManager → RuntimeKind → Launched
launch node_id manager runtime = record {
  node_id = node_id;
  manager = manager;
  hub = is_firecracker runtime;
  runtime = hub_runtime runtime;
}

module _ (hash_key : String → ℕ) where
  -- The overlay, if it is set up.
  abbrev pub after_setup :
      NodeId
      → OverlayManager
      → RuntimeKind
      → Option AgentError × Shell
      → AgentResult Launched × Shell
  after_setup node_id manager runtime (none, shell) =
      (ok (launch node_id (some manager) runtime), shell)
  after_setup node_id manager runtime (some e, shell) = (err e, shell)

  -- `run_agent` behind the registration, up to its loops.
  unfoldable pub overlay_start :
      AgentConfig → RuntimeKind → NodeId → Shell → AgentResult Launched × Shell
  unfolding Overlay.new Overlay.setup hub_runtime
  overlay_start cfg runtime node_id shell = elim cfg.overlay_vni [
    | none ↦ (ok (launch node_id none runtime), shell)
    | some vni ↦ elim cfg.underlay_ip [
      | none ↦ (err (config "--vni requires --underlay-ip"), shell)
      | some underlay_ip ↦
          if not (is_firecracker runtime)
          then (err (config "--vni requires the firecracker runtime"), shell)
          else (let manager = Overlay.new vni underlay_ip node_id in
              after_setup node_id manager runtime (Overlay.setup hash_key manager shell))
    ]
  ]

  -- `run_agent`, with the client that `build_client` returns and the attempts to register.
  unfoldable pub run_agent :
      AgentConfig
      → RuntimeKind
      → AgentResult (Option String)
      → ℕ
      → List (AgentResult NodeId × ℕ)
      → Shell
      → Option (AgentResult Launched × Shell)
  unfolding register_with_retry overlay_start
  run_agent cfg runtime (err e) start attempts shell = some (err e, shell)
  run_agent cfg runtime (ok client) start attempts shell =
      elim (register_with_retry (start + 30_000) attempts) [
        | none ↦ none
        | some r ↦ elim r [
          | err e ↦ some (err e, shell)
          | ok node_id ↦ some (overlay_start cfg runtime node_id shell)
        ]
      ]
