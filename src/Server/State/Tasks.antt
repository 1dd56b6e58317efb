-- ===== src/Server/State/Tasks.antt =====
-- state.rs: `set_task_state`.
use bigtop.Common.{Option, get, insert, if◌then◌else◌}
use bigtop.Common.Int.{ℤ}
use Prim.Native.String.{◌++◌ as append}
use bigtop.Core.Ids.{TaskId}
use bigtop.Core.Error.{Error, not_found, conflict}
use bigtop.Core.Types.{Task, TaskState, is_terminal, to_string}
use bigtop.Server.Ipam.{release}
use bigtop.Server.Journal.{JournalOp}
use bigtop.Server.State.{Exec, ◌>>=◌, ◌>>◌, pure, raise, gets, modify, ok_or, journal_op}

-- Return a task's address to the pool, and journal that if it held one.
unfoldable pub release_ip : TaskId → Exec (Unit {0})
unfolding release
release_ip id s =
    let (freed, ipam) = release s.ipam id in
    if freed
    then journal_op (JournalOp.ipam_release id) (record s { ipam = ipam })
    else pure tt (record s { ipam = ipam })

-- The new task record: the exit code is only taken over with a terminal state.
abbrev pub with_state : Task → TaskState → Option ℤ → Task
with_state task state exit_code =
    if is_terminal state
    then record task { state = state; exit_code = exit_code }
    else record task { state = state }

abbrev pub terminal_conflict : TaskId → Task → Error
terminal_conflict id task =
    conflict (append "task " (append id (append " is already " (to_string task.state))))

unfoldable pub set_task_state : TaskId → TaskState → Option ℤ → Exec (Unit {0})
unfolding release_ip is_terminal
set_task_state id state exit_code = do
  found ← gets (λ s. get id s.tasks)
  task ← ok_or found (not_found (append "task " id))
  if is_terminal task.state then raise (terminal_conflict id task) else do
    modify (λ s. record s { tasks = insert id (with_state task state exit_code) s.tasks })
    if is_terminal state then release_ip id else pure tt
    journal_op (JournalOp.set_task_state id state exit_code)
