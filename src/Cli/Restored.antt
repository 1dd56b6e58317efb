-- ===== src/Cli/Restored.antt =====
-- main.rs, snapshots.rs and state.rs together: what `snapshot restore` comes to on a server.
use Prim.Native.String.{◌++◌ as append}
use bigtop.Common.{
  ℕ, ◌≡◌, ◌⊎◌, inl, inr, sym, ap, ◌∙◌, subst, true, false, some, List, arith, Bool-cases, String,
  ◌==◌, eq_iff, All, All-imp, All-filter, filter, values, get,
}
use bigtop.Common.Sort.{sort_by}
use bigtop.Common.Sorted.{In}
use bigtop.Common.Distinct.{All-sort_by}
use bigtop.Core.Ids.{JobId, TaskId, SnapshotId}
use bigtop.Core.Error.{ok}
use bigtop.Core.Snapshots.{SnapshotRecord, SnapshotState}
use bigtop.Core.Types.{Task, JobSpec, TaskState, restore_task_spec}
use bigtop.Server.State.{StateInner}
use bigtop.Server.State.Jobs.{create_job}
use bigtop.Server.State.Views.{older, task_snapshots}
use bigtop.Server.Api.{AppState, submit_job, list_snapshots}
use bigtop.Server.Api.Reads.{list_tasks, le_task}
use bigtop.Cli.{Client, got}
use bigtop.Cli.Restore.{Endpoint, is_done, restore_job, submit_restore, cmd_snapshot_restore}
use bigtop.Cli.Replies.{
  >>=-eq-inl, with_context-eq-inl, expect-eq-inl, get_json-eq-inl, find-eq-some, All-In, got-eq-got,
  respond-got, reply_of,
}
use bigtop.Cli.Filed.{create_job-Filed}

-- The server that is asked answers as the handlers do on this state.
pub record Serves (app : AppState) (endpoint : Endpoint) (server : String) (task_id : TaskId)
    (job_id : JobId) (fresh : ℕ → TaskId) (now : ℕ) : Type 0 where
  pub tasks :
      (c : Client) → endpoint.tasks c (append server "/v1/tasks") ≡ got (list_tasks app.inner)
  pub snapshots :
      (c : Client)
      → endpoint.snapshots c (append server (append "/v1/tasks/" (append task_id "/snapshots")))
        ≡ reply_of (list_snapshots task_id app)
  pub submit :
      (c : Client) (job : JobSpec)
      → endpoint.submit c (append server "/v1/jobs") job
        ≡ reply_of (submit_job job job_id fresh now app).0

-- The snapshot that was restored, the task that it was taken of, and the task that boots from it.
pub record Restored (app : AppState) (task_id : TaskId) (snapshot_id : SnapshotId) (job_id : JobId)
    (fresh : ℕ → TaskId) (now : ℕ) : Type 0 where
  pub snapshot : SnapshotRecord
  pub listed : In snapshot (values app.inner.snapshots)
  pub id : snapshot.id ≡ snapshot_id
  pub of_task : snapshot.task_id ≡ task_id
  pub state : snapshot.state ≡ SnapshotState.done
  pub source : Task
  pub known : In source (values app.inner.tasks)
  pub source_id : source.id ≡ task_id
  pub task : Task
  pub created :
      get (fresh 0) (submit_job (restore_job snapshot source) job_id fresh now app).1.inner.tasks
      ≡ some task
  pub pending : task.state ≡ TaskState.pending
  pub pinned : task.spec.node_affinity ≡ some snapshot.node_id
  pub boots :
      task.spec.vm.boot_snapshot
      ≡ some (record {
        mem_file_path = snapshot.spec.mem_file_path;
        snapshot_path = snapshot.spec.snapshot_path;
        enable_diff_snapshots = false;
      })
  pub runs : task.spec.command ≡ source.spec.command

-- The record that `restore` picks is the server's.
listed-All :
    (s : StateInner) (task_id : TaskId) (records : List SnapshotRecord)
    → task_snapshots s task_id ≡ ok records
    → All (λ r. In r (values s.snapshots) × (r.task_id ≡ task_id)) records
unfolding task_snapshots
listed-All s task_id records h = subst (All P) same (All-sort_by older P own owned)
  where
    P : SnapshotRecord → Type 0
    P r = In r (values s.snapshots) × (r.task_id ≡ task_id)

    own : List SnapshotRecord
    own = filter (λ r. r.task_id == task_id) (values s.snapshots)

    owned : All P own
    owned =
        All-imp _ P own (λ r p. (p.0, (eq_iff r.task_id task_id).0 p.1))
          (All-filter (λ r. In r (values s.snapshots)) (λ r. r.task_id == task_id)
            (values s.snapshots) (All-In (values s.snapshots)))

    same : sort_by older own ≡ records
    same = ground arith

list_tasks-All : (s : StateInner) → All (λ t. In t (values s.tasks)) (list_tasks s)
unfolding list_tasks
list_tasks-All s =
    All-sort_by le_task (λ t. In t (values s.tasks)) (values s.tasks) (All-In (values s.tasks))

is_done-eq : (state : SnapshotState) → is_done state ≡ true → state ≡ SnapshotState.done
unfolding is_done
is_done-eq state h = ground arith

-- The submission, from the record and the task that were found.
module _ (app : AppState) (endpoint : Endpoint) (server : String) (task_id : TaskId)
    (snapshot_id : SnapshotId) (job_id : JobId) (fresh : ℕ → TaskId) (now : ℕ)
    (client : Client ⊎ String) (serves : Serves app endpoint server task_id job_id fresh now) where
  submitted :
      (task : Task) (r : SnapshotRecord) (lines : List String)
      → submit_restore client endpoint snapshot_id server task r ≡ inl lines
      → (r.state ≡ SnapshotState.done)
        × ((j : JobId) × ((create_job (restore_job r task) job_id fresh now app.inner).0 ≡ ok j))
  unfolding submit_restore submit_job
  submitted task r lines h = elim (Bool-cases (is_done r.state)) [
    | inr other ↦ absurd (ground (arith, other))
    | inl over ↦
        let (c, built, sent) = >>=-eq-inl client _ (rw over at h) in
        let (response, expected, printed) = >>=-eq-inl _ _ sent in
        let replied = expect-eq-inl _ _ _ _ expected in
        let (j, done, same) =
          respond-got 201 (λ job_id. record { job_id = job_id }) _
            (sym (serves.submit c (restore_job r task)) ∙ replied) in
        (is_done-eq r.state over, (j, done))
  ]

  -- What was found, and the job that was accepted for it.
  booted :
      (task : Task) (r : SnapshotRecord) (j : JobId)
      → In r (values app.inner.snapshots) × (r.task_id ≡ task_id)
      → r.id ≡ snapshot_id
      → r.state ≡ SnapshotState.done
      → In task (values app.inner.tasks)
      → task.id ≡ task_id
      → (create_job (restore_job r task) job_id fresh now app.inner).0 ≡ ok j
      → Restored app task_id snapshot_id job_id fresh now
  unfolding submit_job restore_task_spec
  booted task r j own id done known source_id created =
      let (new, filed, as_new) =
        create_job-Filed (append "restore-" task.name) (restore_task_spec r task) job_id j fresh now
          app.inner created in
      record {
        snapshot = r;
        listed = own.0;
        id = id;
        of_task = own.1;
        state = done;
        source = task;
        known = known;
        source_id = source_id;
        task = new;
        created = filed;
        pending = ap (λ t. t.state) as_new;
        pinned = ap (λ t. t.spec.node_affinity) as_new;
        boots = ap (λ t. t.spec.vm.boot_snapshot) as_new;
        runs = ap (λ t. t.spec.command) as_new;
      }

  -- Where `snapshot restore` succeeds against a server whose state does not change between the
  -- requests, the snapshot is a record of the server's, under the task and the id that were given,
  -- and it is done; and the submitted job leaves the server with a new task that is pending, pinned
  -- to the node that holds the snapshot, boots from its files, and runs the command of the task
  -- that the snapshot was taken of.
  pub cmd_snapshot_restore-Restored :
      (lines : List String)
      → cmd_snapshot_restore client endpoint task_id snapshot_id server ≡ inl lines
      → Restored app task_id snapshot_id job_id fresh now
  unfolding cmd_snapshot_restore list_snapshots
  cmd_snapshot_restore-Restored lines h =
      let (tasks, fetched, h₁) = >>=-eq-inl _ _ h in
      let (c, tasks_got) = get_json-eq-inl client endpoint.tasks server "/v1/tasks" fetched in
      let (task, found, h₂) = >>=-eq-inl _ _ h₁ in
      let (records, fetched₂, h₃) = >>=-eq-inl _ _ h₂ in
      let (c₂, records_got) = get_json-eq-inl client endpoint.snapshots server _ fetched₂ in
      let (r, found₂, h₄) = >>=-eq-inl _ _ h₃ in
      let own_tasks =
        subst (All (λ t. In t (values app.inner.tasks)))
          (got-eq-got (sym (serves.tasks c) ∙ tasks_got)) (list_tasks-All app.inner) in
      let (known, source_id) = find-eq-some _ _ tasks own_tasks (with_context-eq-inl _ _ found) in
      let (xs, listed, same) =
        respond-got 200 (λ xs. xs) (task_snapshots app.inner task_id)
          (sym (serves.snapshots c₂) ∙ records_got) in
      let own_records = listed-All app.inner task_id records (listed ∙ ap ok same) in
      let (own, id) = find-eq-some _ _ records own_records (with_context-eq-inl _ _ found₂) in
      let (done, (j, created)) = submitted task r lines h₄ in
      booted task r j own ((eq_iff r.id snapshot_id).0 id) done known
        ((eq_iff task.id task_id).0 source_id) created
