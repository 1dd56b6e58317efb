-- ===== src/Tests/Api.antt =====
-- The API on the states of a concrete run.
use bigtop.Common.{◌≡◌, refl, ℕ, ◌+◌, ◌*◌, none, some, [], ◌∷◌, String, insert, length}
use bigtop.Common.Decimal.{show}
use bigtop.Core.Network.{ipv4}
use bigtop.Server.Scheduler.Services.{show_ip}
use bigtop.Core.Types.{TaskState}
use bigtop.Core.Wire.{SetTaskStateRequest}
use bigtop.Server.State.{StateInner, journal_op}
use bigtop.Server.State.Nodes.{register_node}
use bigtop.Server.State.Views.{service_endpoints}
use bigtop.Server.Api.{AppState, set_task_state}
use bigtop.Server.Api.Reads.{assignments, overlay_peers}
use bigtop.Server.Api.Html.{status_page}
use bigtop.Server.Api.Answers.{Answered, set_task_state-Answered}
use bigtop.Server.Api.Lists.{Assigned, assignments-Assigned}
use bigtop.Server.Api.Mesh.{Meshed, Issued, reconcile-overlay_peers}
use bigtop.Server.Api.Escape.{count}
use bigtop.Server.Api.Page.{service_brackets, status_page-brackets}
use bigtop.Agent.Shell.{Shell, Outcome}
use bigtop.Agent.Overlay.{OverlayManager, reconcile}
use bigtop.Agent.Overlay.Reconcile.{reconcile_twice}
use bigtop.Tests.{registered, placed, total}

abbrev app : AppState
app = record { inner = placed; shadow = none }

abbrev succeeded : SetTaskStateRequest
succeeded = record { state = TaskState.succeeded; exit_code = none }

set_task_state-Answered_example :
    Answered "task-2" succeeded app (set_task_state "task-2" succeeded app)
set_task_state-Answered_example = set_task_state-Answered "task-2" succeeded app

assignments-Assigned_example : Assigned placed "node-1" (assignments placed "node-1")
assignments-Assigned_example = assignments-Assigned placed "node-1"

status_page-brackets_example :
    count b'<' (status_page placed 3)
    ≡ 70
      + 16 * length placed.nodes
      + 14 * length placed.tasks
      + service_brackets (service_endpoints placed)
status_page-brackets_example = status_page-brackets placed 3

-- A second node, with an underlay address.
abbrev two_nodes : StateInner
two_nodes =
    (register_node "node-2" "beta" "10.0.0.2:7000" total (some (ipv4 192 168 0 2)) 6 registered).1

abbrev hash_key : String → ℕ
hash_key key = 81_985_529_216_486_895

abbrev manager : OverlayManager
manager = record { vni = 42; underlay_ip = ipv4 192 168 0 1; node_id = "node-1"; applied = [] }

abbrev shell : Shell
shell = record { issued = []; outcomes = Outcome.failed "RTNETLINK answers: File exists" ∷ [] }

meshes : (reconcile hash_key (overlay_peers two_nodes "node-1" 7) manager shell).0 ≡ none
unfolding reconcile overlay_peers register_node journal_op insert show show_ip
meshes = refl

reconcile-overlay_peers_example :
    Meshed hash_key two_nodes "node-1" 7
      (reconcile hash_key (overlay_peers two_nodes "node-1" 7) manager shell).1.applied
    × Issued hash_key manager
        (reconcile hash_key (overlay_peers two_nodes "node-1" 7) manager shell).1
        shell
        (reconcile hash_key (overlay_peers two_nodes "node-1" 7) manager shell).2
reconcile-overlay_peers_example =
    reconcile-overlay_peers hash_key two_nodes "node-1" 7 manager shell meshes

abbrev stale : OverlayManager
stale = record manager {
  applied =
      record {
        mac = record { b0 = 2; b1 = 0; b2 = 0; b3 = 0; b4 = 0; b5 = 9 };
        dst = ipv4 192 168 0 9;
      }
      ∷ [];
}

-- The command that deletes the stale entry fails.
abbrev refusing : Shell
refusing = record { issued = []; outcomes = Outcome.failed "RTNETLINK answers: Busy" ∷ [] }

no_peer : (reconcile hash_key [] stale refusing).0 ≡ none
unfolding reconcile
no_peer = refl

reconcile_twice_example :
    reconcile hash_key []
      (reconcile hash_key [] stale refusing).1
      (reconcile hash_key [] stale refusing).2
    ≡ reconcile hash_key [] stale refusing
reconcile_twice_example = reconcile_twice hash_key [] stale refusing no_peer
