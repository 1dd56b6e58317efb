-- ===== src/Server/Serve.antt =====
-- crates/bigtop-server/src/lib.rs and auth.rs: how the server starts, up to the framework that serves.
-- The standard library's parser of addresses, the opening of the audit's database and the framework's
-- token store are arguments.
use Prim.Native.Char.{code}
use Prim.Native.String.{◌++◌}
use bigtop.Common.{
  ℕ, Bool, true, false, Option, none, some, List, [], String, ◌⊎◌, inl, inr, HashMap, eqb, values,
  if◌then◌else◌,
}
use mathlib.Core.List.{foldl}
use bigtop.Common.{insert}
use bigtop.Core.Network.{Ipv4Addr}
use bigtop.Core.Snapshots.{SnapshotRecord}
use bigtop.Server.Ipam
use bigtop.Server.Ipam.{Ipam, IpamError, not_base_network}
use bigtop.Server.Scheduler.Services.{show_ip}
use bigtop.Server.State.{StateInner}
use bigtop.Server.Startup.{ServerError, network, auth}
use bigtop.Server.Shadow.Handle.{ShadowHandle}

pub record ServerConfig : Type 0 where
  pub bind_host : String
  pub bind_port : ℕ
  pub api_token : Option String
  pub tick_interval : ℕ
  pub network_cidr : String
  pub data_dir : Option String
  pub harvest_shadow : Option String

-- `ServerConfig::default()`; the interval is in milliseconds.
unfoldable pub default : ServerConfig
default = record {
  bind_host = "127.0.0.1";
  bind_port = 4667;
  api_token = none;
  tick_interval = 500;
  network_cidr = "172.28.0.0/16";
  data_dir = none;
  harvest_shadow = none;
}

-- `cidr.split('/').next()`
unfoldable pub before_slash : String → String
before_slash String.[] = ""
before_slash (String.◌∷◌ c s) =
    let rest = before_slash s in if eqb (code c) b'/' then "" else String.◌∷◌ c rest

-- `impl Display for IpamError`
unfoldable pub show_ipam : IpamError → String
unfolding show_ip
show_ipam (not_base_network ip) = "not a /16 base network: " ++ show_ip ip

-- The allocator that `serve_config` starts with.
unfoldable pub ipam_of : (String → Option Ipv4Addr) → String → Ipam ⊎ ServerError
unfolding before_slash show_ipam Ipam.new
ipam_of parse cidr = elim (parse (before_slash cidr)) [
  | none ↦ inr (network cidr)
  | some base ↦ elim (Ipam.new base) [
    | Ipam.NewResult.err e ↦ inr (network (cidr ++ ": " ++ show_ipam e))
    | Ipam.NewResult.ok ipam ↦ inl ipam
  ]
]

-- The mirror of `spawn_shadow`: the records of the seed under their ids.
unfoldable pub seeded : List SnapshotRecord → HashMap SnapshotRecord
unfolding insert
seeded records = foldl (λ mirror r. insert r.id r mirror) [] records

-- `maybe_enable_shadow`, with the error of starting the audit, if it has one.
unfoldable pub maybe_enable_shadow :
    Option String → Option String → StateInner → Option ShadowHandle
unfolding seeded
maybe_enable_shadow none error s = none
maybe_enable_shadow (some path) (some message) s = none
maybe_enable_shadow (some path) none s =
    some (record { mirror = seeded (values s.snapshots); sent = []; receiver = true; errors = 0 })

-- `provision_token_store`: the token to hand out, and whether it was generated; `issued` is what the
-- framework's store issues, or its error.
unfoldable pub provision_token_store :
    Option String → String ⊎ String → (String × Bool) ⊎ ServerError
provision_token_store (some raw) issued = inl (raw, false)
provision_token_store none (inl raw) = inl (raw, true)
provision_token_store none (inr message) = inr (auth ("issuing API token: " ++ message))
