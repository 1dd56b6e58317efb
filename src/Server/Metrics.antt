-- ===== src/Server/Metrics.antt =====
-- crates/bigtop-server/src/metrics.rs: the Prometheus text, with what api.rs appends for the audit. The
-- audit's counters and the counts of its database, if that can be read, are arguments. A text
-- constant is the source's.
use Prim.Native.String.{◌++◌}
use bigtop.Common.{
  ℕ, ◌+◌, Bool, Option, none, some, List, [], ◌∷◌, String, values, filter, length, unwrap_or, ◌≡◌,
  arith,
}
use bigtop.Common.Decimal.{show}
use bigtop.Core.Snapshots.{SnapshotState}
use bigtop.Core.Types.{Task, TaskState, is_alive}
use bigtop.Server.Ipam.{allocated_count, capacity}
use bigtop.Server.State.{StateInner}

pub record TaskCounts : Type 0 where
  pub pending : ℕ
  pub assigned : ℕ
  pub running : ℕ
  pub succeeded : ℕ
  pub failed : ℕ

-- One round of the loop over the tasks.
unfoldable pub count_state : TaskState → TaskCounts → TaskCounts
count_state TaskState.pending c = record c { pending = c.pending + 1 }
count_state TaskState.assigned c = record c { assigned = c.assigned + 1 }
count_state TaskState.running c = record c { running = c.running + 1 }
count_state TaskState.succeeded c = record c { succeeded = c.succeeded + 1 }
count_state TaskState.failed c = record c { failed = c.failed + 1 }

unfoldable pub count_tasks : List Task → TaskCounts → TaskCounts
unfolding count_state
count_tasks [] c = c
count_tasks (task ∷ tasks) c = count_tasks tasks (count_state task.state c)

abbrev pub no_tasks : TaskCounts
no_tasks = record { pending = 0; assigned = 0; running = 0; succeeded = 0; failed = 0 }

unfoldable pub is_done : SnapshotState → Bool
is_done SnapshotState.done = Bool.true
is_done _ = Bool.false

-- A line of one sample.
abbrev sample : String → ℕ → String
sample name count = name ++ " " ++ show count ++ "\n"

abbrev tasks_in : String → ℕ → String
tasks_in label count = sample ("bigtop_tasks{state=\"" ++ label ++ "\"}") count

unfoldable pub render_metrics : StateInner → ℕ → String
unfolding count_tasks is_done is_alive show allocated_count capacity
render_metrics s now =
    let c = count_tasks (values s.tasks) no_tasks in
    "# HELP bigtop_tasks Tasks by lifecycle state.\n"
    ++ "# TYPE bigtop_tasks gauge\n"
    ++ tasks_in "pending" c.pending
    ++ tasks_in "assigned" c.assigned
    ++ tasks_in "running" c.running
    ++ tasks_in "succeeded" c.succeeded
    ++ tasks_in "failed" c.failed
    ++ "# HELP bigtop_nodes_up Nodes with a recent heartbeat.\n"
    ++ "# TYPE bigtop_nodes_up gauge\n"
    ++ sample "bigtop_nodes_up" (length (filter (λ n. is_alive n now) (values s.nodes)))
    ++ "# HELP bigtop_scheduler_tick_ms Wall-clock duration of the last scheduler tick."
    ++ "# TYPE bigtop_scheduler_tick_ms gauge\n"
    ++ sample "bigtop_scheduler_tick_ms" (unwrap_or 0 s.last_tick_ms)
    ++ "# HELP bigtop_ipam_allocated Task pod IPs currently assigned.\n"
    ++ "# TYPE bigtop_ipam_allocated gauge\n"
    ++ sample "bigtop_ipam_allocated" (allocated_count s.ipam)
    ++ "# HELP bigtop_ipam_total Task pod IPs the /16 can hand out.\n"
    ++ "# TYPE bigtop_ipam_total gauge\n"
    ++ sample "bigtop_ipam_total" capacity
    ++ "# HELP bigtop_snapshots_done Snapshots that reached Done.\n"
    ++ "# TYPE bigtop_snapshots_done gauge\n"
    ++ sample "bigtop_snapshots_done" (length (filter (λ r. is_done r.state) (values s.snapshots)))

pub record ShadowStats : Type 0 where
  pub started : ℕ
  pub observations : ℕ
  pub errors : ℕ

pub record VerdictCounts : Type 0 where
  pub pending : ℕ
  pub agree : ℕ
  pub stuck : ℕ
  pub missing : ℕ
  pub harvest_error : ℕ

abbrev verdicts_of : String → ℕ → String
verdicts_of verdict count =
    sample ("bigtop_harvest_shadow_verdict_total{verdict=\"" ++ verdict ++ "\"}") count

abbrev verdict_lines : Option VerdictCounts → String
verdict_lines none = ""
verdict_lines (some v) =
    "# HELP bigtop_harvest_shadow_verdict_total Tracked snapshots by current shadow verdict.\n"
    ++ "# TYPE bigtop_harvest_shadow_verdict_total gauge\n"
    ++ verdicts_of "pending" v.pending
    ++ verdicts_of "agree" v.agree
    ++ verdicts_of "stuck" v.stuck
    ++ verdicts_of "missing" v.missing
    ++ verdicts_of "harvest_error" v.harvest_error

unfoldable pub render_shadow_metrics : ShadowStats → Option VerdictCounts → String → String
unfolding show
render_shadow_metrics stats verdicts out =
    out
    ++ "# HELP bigtop_harvest_shadow_workflows_started_total Snapshot audits started by the Harvest shadow.\n"
    ++ "# TYPE bigtop_harvest_shadow_workflows_started_total counter\n"
    ++ sample "bigtop_harvest_shadow_workflows_started_total" stats.started
    ++ "# HELP bigtop_harvest_shadow_observations_total Observations recorded by the Harvest shadow.\n"
    ++ "# TYPE bigtop_harvest_shadow_observations_total counter\n"
    ++ sample "bigtop_harvest_shadow_observations_total" stats.observations
    ++ "# HELP bigtop_harvest_shadow_errors_total Contained Harvest shadow failures.\n"
    ++ "# TYPE bigtop_harvest_shadow_errors_total counter\n"
    ++ sample "bigtop_harvest_shadow_errors_total" stats.errors
    ++ verdict_lines verdicts

-- The body of `/metrics`, where the audit is enabled if there are counters of it.
unfoldable pub metrics : StateInner → ℕ → Option (ShadowStats × Option VerdictCounts) → String
unfolding render_metrics render_shadow_metrics
metrics s now none = render_metrics s now
metrics s now (some (stats, verdicts)) = render_shadow_metrics stats verdicts (render_metrics s now)

total : TaskCounts → ℕ
total c = c.pending + c.assigned + c.running + c.succeeded + c.failed

-- Every task is in one of the five samples.
total-count_tasks :
    (tasks : List Task) (c : TaskCounts) → total (count_tasks tasks c) ≡ total c + length tasks
unfolding total count_tasks count_state
total-count_tasks [] c = omega arith
total-count_tasks (task ∷ tasks) c =
    ground (arith, total-count_tasks tasks (count_state task.state c))
