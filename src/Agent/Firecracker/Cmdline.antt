-- ===== src/Agent/Firecracker/Cmdline.antt =====
-- firecracker.rs: the kernel's command line, with the shell line of the task in base64. The encoding
-- is the parameter `base64`.
use Prim.Native.String.{◌++◌}
use bigtop.Common.{
  Bool, true, false, Option, none, some, List, [], ◌∷◌, String, map, HashMap, if◌then◌else◌,
  Ordering,
}
use Prim.Native.String.{compare}
use bigtop.Common.Sort.{sort_by, le_str}
use bigtop.Common.Text.{replace}
use bigtop.Core.Network.{Ipv4Addr, NetworkAssignment}
use bigtop.Core.Types.{Task}
use bigtop.Server.State.Jobs.{is_blank}
use bigtop.Server.Scheduler.Services.{show_ip}
use bigtop.Agent.Shell.{join}

abbrev with_hostname : String → Option String → String
with_hostname base none = base
with_hostname base (some name) = base ++ " bigtop.hostname=" ++ name

unfoldable pub network_boot_args : Ipv4Addr → Ipv4Addr → Ipv4Addr → Option String → String
unfolding show_ip
network_boot_args ip gateway netmask hostname =
    with_hostname
      ("ip=" ++ show_ip ip ++ "::" ++ show_ip gateway ++ ":" ++ show_ip netmask ++ "::eth0:off")
      hostname

unfoldable pub shell_quote : String → String
unfolding replace
shell_quote word = "'" ++ replace b'\'' "'\\''" word ++ "'"

-- The order of pairs.
abbrev pub le_pair : String × String → String × String → Bool
le_pair a b = elim (compare a.0 b.0) [
  | Ordering.lt ↦ true
  | Ordering.eq ↦ le_str a.1 b.1
  | Ordering.gt ↦ false
]

-- The pieces of the line: the variables, then the command, then its arguments.
unfoldable pub variables : List (String × String) → List String → List String
unfolding shell_quote
variables [] rest = rest
variables ((key, val) ∷ pairs) rest = (key ++ "=" ++ shell_quote val) ∷ variables pairs rest

unfoldable pub shell_join : String → List String → HashMap String → String
unfolding variables shell_quote sort_by join
shell_join command args env =
    join " " (variables (sort_by le_pair env) (shell_quote command ∷ map shell_quote args))

abbrev default_args : String
default_args = "console=ttyS0 reboot=k panic=1 pci=off"

abbrev base_args : Option String → String
base_args none = default_args
base_args (some base) = if is_blank base then default_args else base

-- ` ip=…`, where networking is enabled and an address is assigned.
abbrev network_args : Bool → Option NetworkAssignment → Option String → String
network_args false network hostname = ""
network_args true none hostname = ""
network_args true (some a) hostname = " " ++ network_boot_args a.ip a.gateway a.netmask hostname

module _ (base64 : String → String) where
  unfoldable pub boot_args : Option String → Task → String
  unfolding network_boot_args shell_join is_blank
  boot_args base task =
      base_args base
      ++ " bigtop.task="
      ++ task.id
      ++ " bigtop.cmd_b64="
      ++ base64 (shell_join task.spec.command task.spec.args task.spec.env)
      ++ network_args task.spec.network.enabled task.network task.spec.network.hostname
