-- ===== src/Server/Scheduler/Services.antt =====
-- scheduler.rs: `services_env_for`, the addresses of the services that a task discovers.
use Prim.Native.String.{◌++◌ as append}
use bigtop.Common.{
  not, Option, none, some, List, [], ◌∷◌, ◌++◌, String, HashMap, get, insert, values, unwrap_or,
  if◌then◌else◌,
}
use bigtop.Common.Decimal.{show}
use bigtop.Common.Sort.{sort, btree_insert}
use mathlib.Core.List.{foldl}
use bigtop.Core.Network.{Ipv4Addr, NetworkAssignment}
use bigtop.Core.Types.{Task, is_running}
use bigtop.Server.State.{StateInner}

-- `Ipv4Addr::to_string`
unfoldable pub show_ip : Ipv4Addr → String
unfolding show
show_ip ip =
    append (show ip.o0) (
      append "." (append (show ip.o1) (append "." (append (show ip.o2) (append "." (show ip.o3))))))

-- `by_name.entry(name).or_default().push(ip)`
abbrev pub push_ip : String → String → HashMap (List String) → HashMap (List String)
push_ip name ip by_name = insert name (unwrap_or [] (get name by_name) ++ ip ∷ []) by_name

-- The `let … else { continue }` of the loop: a task with a service name and an address.
abbrev pub endpoint : Option String → Option NetworkAssignment → Option (String × Ipv4Addr)
endpoint (some name) (some network) = some (name, network.ip)
endpoint (some name) none = none
endpoint none network = none

-- One round of the loop over the tasks.
unfoldable pub add_endpoint : HashMap (List String) → Task → HashMap (List String)
unfolding show_ip
add_endpoint by_name other = elim (endpoint other.spec.service.name other.network) [
  | none ↦ by_name
  | some (name, ip) ↦
      if not (is_running other.state) then by_name else push_ip name (show_ip ip) by_name
]

-- One round of the loop over the discovered names.
abbrev pub add_name :
    HashMap (List String) → List (String × List String) → String → List (String × List String)
add_name by_name out name = btree_insert name (sort (unwrap_or [] (get name by_name))) out

-- The map that is written as JSON.
unfoldable pub discovered : StateInner → List String → List (String × List String)
unfolding add_endpoint sort btree_insert
discovered s names = foldl (add_name (foldl add_endpoint [] (values s.tasks))) [] names

unfoldable pub services_env_for :
    (List (String × List String) → Option String) → StateInner → Task → Option String
unfolding discovered
services_env_for to_json s task = elim task.spec.service.discover [
  | [] ↦ none
  | name ∷ names ↦ to_json (discovered s (name ∷ names))
]
