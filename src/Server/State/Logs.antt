-- ===== src/Server/State/Logs.antt =====
-- state.rs: `push_logs`, the bounded log tail of a task.
use bigtop.Common.{String, List, [], ◌∷◌, ◌++◌, get, insert, length, leb, ℕ, if◌then◌else◌}
use Prim.Native.String.{◌++◌ as append}
use bigtop.Core.Ids.{TaskId}
use bigtop.Core.Error.{not_found}
use bigtop.Server.State.{Exec, ◌>>=◌, gets, modify, ok_or}

abbrev pub max_log_lines : ℕ
max_log_lines = 200

-- `while buf.len() > MAX_LOG_LINES { buf.pop_front(); }`
unfoldable pub pop_excess : List String → List String
pop_excess [] = []
pop_excess (line ∷ lines) =
    let rest = pop_excess lines in
    if leb (length (line ∷ lines)) max_log_lines then line ∷ lines else rest

unfoldable pub push_logs : TaskId → List String → Exec (Unit {0})
unfolding pop_excess
push_logs id lines = do
  found ← gets (λ s. get id s.logs)
  buf ← ok_or found (not_found (append "task " id))
  modify (λ s. record s { logs = insert id (pop_excess (buf ++ lines)) s.logs })
