-- ===== src/Server/State/Views.antt =====
-- state.rs: the read-only views `service_endpoints` and `task_snapshots`.
use bigtop.Common.{
  String, Bool, not, Option, none, some, List, [], ◌∷◌, ◌++◌, map, HashMap, get, insert, values,
  filter, is_some, unwrap_or, leb, ◌==◌, if◌then◌else◌,
}
use bigtop.Common.Sort.{sort_by, le_str}
use mathlib.Core.List.{foldl}
use Prim.Native.String.{◌++◌ as append}
use bigtop.Core.Ids.{TaskId}
use bigtop.Core.Error.{Result, ok, err, not_found}
use bigtop.Core.Network.{NetworkAssignment}
use bigtop.Core.Snapshots.{SnapshotRecord}
use bigtop.Core.Types.{Task, is_running}
use bigtop.Core.Wire.{ServiceEndpoint, ServiceInfo}
use bigtop.Server.State.{StateInner}

-- The service name and the endpoint of a task that has both a name and an address.
abbrev pub served :
    TaskId → Option String → Option NetworkAssignment → Option (String × ServiceEndpoint)
served id (some name) (some network) = some (name, record { task_id = id; ip = network.ip })
served id (some name) none = none
served id none network = none

-- One round of the loop over the tasks.
unfoldable pub add_service : HashMap (List ServiceEndpoint) → Task → HashMap (List ServiceEndpoint)
add_service by_name task = elim (served task.id task.spec.service.name task.network) [
  | none ↦ by_name
  | some (name, endpoint) ↦
      if not (is_running task.state)
      then by_name
      else insert name (unwrap_or [] (get name by_name) ++ endpoint ∷ []) by_name
]

abbrev pub le_endpoint : ServiceEndpoint → ServiceEndpoint → Bool
le_endpoint a b = le_str a.task_id b.task_id

abbrev pub le_service : ServiceInfo → ServiceInfo → Bool
le_service a b = le_str a.name b.name

unfoldable pub service_endpoints : StateInner → List ServiceInfo
unfolding add_service sort_by
service_endpoints s = sort_by le_service (
    map (λ e. record { name = e.0; endpoints = sort_by le_endpoint e.1 })
      (foldl add_service [] (values s.tasks)))

abbrev pub older : SnapshotRecord → SnapshotRecord → Bool
older a b = leb a.created_at b.created_at

unfoldable pub task_snapshots : StateInner → TaskId → Result (List SnapshotRecord)
unfolding sort_by
task_snapshots s task_id =
    if not (is_some (get task_id s.tasks))
    then err (not_found (append "task " task_id))
    else ok (sort_by older (filter (λ r. r.task_id == task_id) (values s.snapshots)))
