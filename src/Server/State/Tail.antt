-- ===== src/Server/State/Tail.antt =====
-- state.rs: `push_logs` keeps the end of the log.
use bigtop.Common.{
  ◌≡◌, refl, ap, some, String, List, [], ◌∷◌, ◌++◌, get, length, leb, arith, get-insert_self,
  get-insert_ne, ◌≢◌, Option-cases, Bool-cases, inl, inr,
}
use Prim.Native.Nat.{min}
use bigtop.Core.Ids.{TaskId}
use bigtop.Core.Error.{ok}
use bigtop.Server.State.{StateInner}
use bigtop.Server.State.Logs.{max_log_lines, pop_excess, push_logs}

-- `kept` is the end of `all`, at most `max_log_lines` long and no shorter than it has to be.
pub record Tail (all kept : List String) : Type 0 where
  pub dropped : List String
  pub split : all ≡ dropped ++ kept
  pub size : length kept ≡ min (length all) max_log_lines

pop_excess-Tail : (lines : List String) → Tail lines (pop_excess lines)
unfolding pop_excess
pop_excess-Tail [] = record { dropped = []; split = refl; size = refl }
pop_excess-Tail (line ∷ lines) = elim (Bool-cases (leb (length (line ∷ lines)) max_log_lines)) [
  | inl fits ↦ rw fits (record { dropped = []; split = refl; size = ground arith })
  | inr long ↦
      let rest = pop_excess-Tail lines in
      rw long (record {
        dropped = line ∷ rest.dropped;
        split = ap (◌∷◌ line) rest.split;
        size = ground (arith, rest.size);
      })
]

-- What a task's log is behind a push.
pub record Pushed (id : TaskId) (new : List String) (s u : StateInner) : Type 0 where
  pub old : List String
  pub kept : List String
  pub before : get id s.logs ≡ some old
  pub after : get id u.logs ≡ some kept
  pub tail : Tail (old ++ new) kept
  pub others : (k : TaskId) → k ≢ id → get k u.logs ≡ get k s.logs
  pub rest : record u { logs = [] } ≡ record s { logs = [] }

-- A push that succeeds appends the lines to the task's log and keeps exactly the last 200 lines of
-- the result, or all of it if it is shorter; no other log and no other part of the state changes.
pub push_logs-Pushed :
    (id : TaskId) (new : List String) (s : StateInner)
    → (push_logs id new s).0 ≡ ok tt
    → Pushed id new s (push_logs id new s).1
unfolding push_logs
push_logs-Pushed id new s h = elim (Option-cases (get id s.logs)) [
  | inl missing ↦ absurd (ground arith)
  | inr (old, found) ↦ rw found (record {
    old = old;
    kept = pop_excess (old ++ new);
    before = found;
    after = get-insert_self id (pop_excess (old ++ new)) s.logs;
    tail = pop_excess-Tail (old ++ new);
    others = λ k ne. get-insert_ne id k (pop_excess (old ++ new)) s.logs ne;
    rest = refl;
  })
]
