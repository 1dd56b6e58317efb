-- ===== src/Cli/Table.antt =====
-- main.rs: the tables that the read-only commands print. `{:<n}` pads a text with spaces up to `n`
-- characters.
use Prim.Native.String.{◌++◌}
use bigtop.Common.{
  ℕ, zero, suc, ◌+◌, ◌-◌, Option, none, some, List, [], ◌∷◌, map, String, ◌⊎◌, inl, ltb,
  if◌then◌else◌,
}
use bigtop.Common.Int.{ℤ, pos, negsuc}
use bigtop.Common.Decimal.{show}
use bigtop.Common.Text.{chars, take_chars}
use bigtop.Core.Snapshots.{SnapshotRecord, SnapshotState, SnapshotType}
use bigtop.Core.Types.{Task, NodeInfo, to_string, is_alive}
use bigtop.Core.Wire.{ServiceInfo}
use bigtop.Server.Scheduler.Services.{show_ip}
use bigtop.Agent.Shell.{join}
use bigtop.Cli.{Client, Reply, get_json, ◌>>=◌}

unfoldable pub truncate : String → ℕ → String
unfolding chars take_chars
truncate s max_chars =
    if ltb max_chars (chars s) then take_chars max_chars s ++ "…" else take_chars max_chars s

unfoldable pub spaces : ℕ → String
spaces zero = ""
spaces (suc n) = " " ++ spaces n

-- `{:<n}`
unfoldable pub pad : ℕ → String → String
unfolding chars spaces
pad n s = s ++ spaces (n - chars s)

-- `impl Display for i32`
unfoldable pub show_ℤ : ℤ → String
unfolding show
show_ℤ (pos n) = show n
show_ℤ (negsuc n) = "-" ++ show (n + 1)

-- `map_or_else(|| "-".to_string(), f)`
abbrev pub or_dash {ℓ} : {A : Type ℓ} → (A → String) → Option A → String
or_dash f none = "-"
or_dash f (some a) = f a

-- The cells of a line, each with its width, and the last one, which is not padded.
unfoldable pub line : List (ℕ × String) → String → String
unfolding pad
line [] last = last
line ((width, cell) ∷ cells) last = pad width cell ++ " " ++ line cells last

abbrev pub ps_line : String → String → String → String → String → String → String → String
ps_line id name state exit node ip job =
    line ((26, id) ∷ (18, name) ∷ (10, state) ∷ (6, exit) ∷ (26, node) ∷ (15, ip) ∷ []) job

unfoldable pub ps_row : Task → String
unfolding line truncate to_string show_ℤ show_ip
ps_row task =
    ps_line (truncate task.id 26) (truncate task.name 18) (to_string task.state)
      (or_dash show_ℤ task.exit_code) (truncate (or_dash (λ id. id) task.assigned_node) 26)
      (or_dash (λ n. show_ip n.ip) task.network) task.job_id

unfoldable pub cmd_ps :
    Client ⊎ String → (Client → String → Reply (List Task)) → String → List String ⊎ String
unfolding get_json line ps_row
cmd_ps client fetch server = do
  tasks ← get_json client fetch server "/v1/tasks"
  inl (ps_line "TASK ID" "NAME" "STATE" "EXIT" "NODE" "IP" "JOB" ∷ map ps_row tasks)

unfoldable pub nodes_line : String → String → String → String → String → String
unfolding line
nodes_line id name alive cpu mem = line ((26, id) ∷ (16, name) ∷ (7, alive) ∷ (22, cpu) ∷ []) mem

unfoldable pub node_row : ℕ → NodeInfo → String
unfolding nodes_line truncate is_alive show
node_row now node =
    nodes_line (truncate node.id 26) (truncate node.name 16)
      (if is_alive node now then "yes" else "no")
      (show node.used.cpu_millis ++ "/" ++ show node.total.cpu_millis ++ " millicores")
      (show node.used.mem_mb ++ "/" ++ show node.total.mem_mb ++ " MiB")

unfoldable pub cmd_nodes :
    Client ⊎ String → (Client → String → Reply (List NodeInfo)) → ℕ → String → List String ⊎ String
unfolding get_json nodes_line node_row
cmd_nodes client fetch now server = do
  nodes ← get_json client fetch server "/v1/nodes"
  inl (
      nodes_line "NODE ID" "NAME" "ALIVE" "CPU used/total" "MEM used/total MiB"
      ∷ map (node_row now) nodes)

unfoldable pub service_row : ServiceInfo → String
unfolding line truncate show_ip join
service_row service =
    line ((24, service.name) ∷ []) (
      join ", " (map (λ e. truncate e.task_id 20 ++ " (" ++ show_ip e.ip ++ ")") service.endpoints))

unfoldable pub cmd_services :
    Client ⊎ String → (Client → String → Reply (List ServiceInfo)) → String → List String ⊎ String
unfolding get_json line service_row
cmd_services client fetch server = do
  services ← get_json client fetch server "/v1/services"
  inl (line ((24, "SERVICE") ∷ []) "ENDPOINTS" ∷ map service_row services)

-- `format!("{:?}", state).to_lowercase()`
unfoldable pub lower_debug : SnapshotState → String
lower_debug SnapshotState.requested = "requested"
lower_debug SnapshotState.in_progress = "inprogress"
lower_debug SnapshotState.done = "done"
lower_debug SnapshotState.failed = "failed"

unfoldable pub kind_of : SnapshotType → String
kind_of SnapshotType.full = "full"
kind_of SnapshotType.diff = "diff"

abbrev pub snapshot_line : String → String → String → String → String → String
snapshot_line id state node kind files =
    line ((26, id) ∷ (12, state) ∷ (26, node) ∷ (6, kind) ∷ []) files

unfoldable pub snapshot_row : SnapshotRecord → String
unfolding line truncate lower_debug kind_of
snapshot_row r =
    snapshot_line (truncate r.id 26) (lower_debug r.state) (truncate r.node_id 26)
      (kind_of r.spec.snapshot_type)
      (truncate r.spec.mem_file_path 30 ++ " + " ++ truncate r.spec.snapshot_path 30)

unfoldable pub cmd_snapshot_list :
    Client ⊎ String
    → (Client → String → Reply (List SnapshotRecord))
    → String
    → String
    → List String ⊎ String
unfolding get_json line snapshot_row
cmd_snapshot_list client fetch task_id server = do
  records ← get_json client fetch server ("/v1/tasks/" ++ task_id ++ "/snapshots")
  inl (snapshot_line "SNAPSHOT ID" "STATE" "NODE" "TYPE" "FILES" ∷ map snapshot_row records)
