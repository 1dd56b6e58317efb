-- ===== src/Server/Api/Html.antt =====
-- api.rs: the status page, the rows that it is built from, and the escape of what they quote. A text
-- constant of the page is the source's.
use Prim.Native.String.{◌++◌}
use bigtop.Common.{
  ℕ, Bool, Option, none, some, List, [], ◌∷◌, String, map, values, length, if◌then◌else◌,
}
use bigtop.Common.Decimal.{show}
use bigtop.Common.Text.{replace}
use bigtop.Common.Sort.{sort_by}
use bigtop.Core.Network.{Ipv4Addr, NetworkAssignment}
use bigtop.Core.Types.{Task, NodeInfo, is_alive, to_string}
use bigtop.Core.Wire.{ServiceEndpoint, ServiceInfo}
use bigtop.Server.Ipam.{allocated_count, capacity}
use bigtop.Server.Scheduler.Services.{show_ip}
use bigtop.Server.State.{StateInner}
use bigtop.Server.State.Views.{service_endpoints}
use bigtop.Server.Api.Reads.{le_node, le_task}
use bigtop.Agent.Shell.{join}

unfoldable pub esc : String → String
unfolding replace
esc input =
    replace b'"' "&quot;" (replace b'>' "&gt;" (replace b'<' "&lt;" (replace b'&' "&amp;" input)))

-- A table cell.
abbrev pub cell : String → String
cell text = "<td>" ++ text ++ "</td>"

-- A table row and its line feed, from its cells.
abbrev pub row : String → String
row cells = "<tr>" ++ cells ++ "</tr>\n"

abbrev pub yes_no : Bool → String
yes_no alive = if alive then "yes" else "no"

abbrev pub underlay : Option Ipv4Addr → String
underlay none = "-"
underlay (some ip) = show_ip ip

unfoldable pub node_row : ℕ → NodeInfo → String
unfolding esc show is_alive
node_row now node = row (
    cell (esc node.id)
    ++ cell (esc node.name)
    ++ cell (esc node.addr)
    ++ cell (underlay node.underlay_ip)
    ++ cell (yes_no (is_alive node now))
    ++ cell (show node.used.cpu_millis ++ "/" ++ show node.total.cpu_millis)
    ++ cell (show node.used.mem_mb ++ "/" ++ show node.total.mem_mb))

-- A loop that writes a row for each element.
abbrev pub rows {ℓ} : {A : Type ℓ} → (A → String) → List A → String
rows f [] = ""
rows f (x ∷ xs) = f x ++ rows f xs

unfoldable pub render_node_rows : StateInner → ℕ → String
unfolding node_row sort_by
render_node_rows s now = rows (node_row now) (sort_by le_node (values s.nodes))

-- A text that may be missing.
abbrev pub quoted : Option String → String
quoted none = "-"
quoted (some text) = esc text

abbrev pub address : Option NetworkAssignment → String
address none = "-"
address (some network) = show_ip network.ip

unfoldable pub task_row : Task → String
unfolding esc to_string
task_row task = row (
    cell (esc task.id)
    ++ cell (esc task.name)
    ++ cell (to_string task.state)
    ++ cell (quoted task.assigned_node)
    ++ cell (address task.network)
    ++ cell (quoted task.spec.service.name))

unfoldable pub render_task_rows : StateInner → String
unfolding task_row sort_by
render_task_rows s = rows task_row (sort_by le_task (values s.tasks))

abbrev pub endpoint_text : ServiceEndpoint → String
endpoint_text e = esc e.task_id ++ " (" ++ show_ip e.ip ++ ")"

unfoldable pub service_row : ServiceInfo → String
unfolding esc join
service_row service =
    row (cell (esc service.name) ++ cell (join ", " (map endpoint_text service.endpoints)))

-- Rows are empty just where there is no service.
unfoldable pub render_service_rows : StateInner → String
unfolding service_row service_endpoints
render_service_rows s = elim (rows service_row (service_endpoints s)) [
  | String.[] ↦ "<tr><td colspan=\"2\">no services registered</td></tr>\n"
  | String.◌∷◌ c text ↦ String.◌∷◌ c text
]

abbrev page_head : String
page_head =
    "<!DOCTYPE html>\n<html>\n<head>\n<meta charset=\"utf-8\">\n<title>BigTop status</title>\n"
    ++ "<style>body{font-family:monospace;margin:2em}table{border-collapse:collapse}"
    ++ "td,th{border:1px solid #999;padding:4px 8px;text-align:left}"
    ++ "th{background:#eee}</style>\n</head>\n<body>\n" ++ "<h1>BigTop status</h1>\n"

abbrev node_columns : String
node_columns =
    "<table>\n<tr><th>id</th><th>name</th><th>addr</th><th>underlay</th><th>alive</th>"
    ++ "<th>cpu (m)</th><th>mem (mb)</th></tr>\n"

abbrev task_columns : String
task_columns =
    "<table>\n<tr><th>id</th><th>name</th><th>state</th><th>node</th><th>ip</th><th>service</th></tr>\n"

unfoldable pub status_page : StateInner → ℕ → String
unfolding render_node_rows render_task_rows render_service_rows show allocated_count capacity
status_page s now =
    page_head
    ++ "<h2>Nodes ("
    ++ show (length s.nodes)
    ++ ")</h2>\n"
    ++ node_columns
    ++ render_node_rows s now
    ++ "</table>\n<h2>Services</h2>\n<table>\n<tr><th>service</th><th>endpoints</th></tr>\n"
    ++ render_service_rows s
    ++ "</table>\n<h2>Tasks ("
    ++ show (length s.tasks)
    ++ ")</h2>\n"
    ++ task_columns
    ++ render_task_rows s
    ++ "</table>\n<h2>IPAM</h2>\n<p>"
    ++ show (allocated_count s.ipam)
    ++ " allocated / "
    ++ show capacity
    ++ " total</p>\n<p><a href=\"/metrics\">Prometheus metrics</a></p>\n</body>\n</html>"
