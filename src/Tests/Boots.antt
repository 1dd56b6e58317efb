-- ===== src/Tests/Boots.antt =====
-- A server that crashes in an append and starts again.
use Prim.Native.String.{◌++◌ as append}
use bigtop.Common.{
  inl, ◌≡◌, refl, ℕ, ◌++◌, ◌&&◌, none, some, List, [], ◌∷◌, String, eqb, All, arith, take, zero,
  suc, ◌<◌, if◌then◌else◌,
}
use bigtop.Server.Ipam
use bigtop.Server.Journal.{JournalOp}
use bigtop.Server.Journal.File.{
  Parsed, op, garbled, holds, Repair, load_journal_ops, line_of, file_of,
}
use bigtop.Server.Journal.Lines.{IsJson}
use bigtop.Server.Journal.Crash.{Recovered, load_journal_ops-Recovered}
use bigtop.Server.State.{journal_op}
use bigtop.Server.State.Nodes.{register_node, new_node}
use bigtop.Server.Replay.{DurableState}
use bigtop.Server.Replay.Same.{lines}
use bigtop.Server.Startup.{
  ParsedState, durable, garbled_state, Disk, Started, refused, persistence, locked_by, show_store,
  load_persistent_state,
}
use bigtop.Server.Startup.Compact.{settled, run_ops, compact}
use bigtop.Server.Startup.Boot.{
  Booted, healthy, unlocked, crashed, lock_removed, load_persistent_state-Booted,
}
use bigtop.Server.Startup.Compaction.{Crashed, Crash, Survivor, compact-Survivor}
use bigtop.Tests.{to_json, registered, total}
use bigtop.Tests.Restarts.{up}

-- A JSON library that knows two operations.
abbrev joined : JournalOp
joined = JournalOp.register_node (new_node "node-1" "alpha" "10.0.0.1:7000" total none 0)

abbrev next : JournalOp
next = JournalOp.task_requeued "task-1"

abbrev to_vec : JournalOp → List ℕ
to_vec (JournalOp.register_node node) = 123 ∷ []
to_vec (JournalOp.task_requeued id) = 91 ∷ 93 ∷ []
to_vec _ = []

abbrev from_slice : List ℕ → Parsed
from_slice [] = garbled "EOF while parsing a value"
from_slice (a ∷ []) = if eqb a 123 then op joined else garbled "EOF while parsing a list"
from_slice (a ∷ b ∷ []) = if eqb a 91 && eqb b 93 then op next else garbled "expected value"
from_slice (a ∷ b ∷ c ∷ rest) = garbled "trailing characters"

abbrev state_from_slice : List ℕ → ParsedState
state_from_slice bytes = garbled_state "EOF while parsing a value"

joined-IsJson : IsJson to_vec from_slice joined
joined-IsJson = record { round = refl; plain = refl; nonempty = refl; prefix = λ k h. prefixes k h }
  where
    prefixes :
        (k : ℕ) → k < 1 → (message : String) × (from_slice (take k (123 ∷ [])) ≡ garbled message)
    prefixes zero h = (_, refl)
    prefixes (suc k) h = absurd (omega arith)

next-IsJson : IsJson to_vec from_slice next
next-IsJson = record { round = refl; plain = refl; nonempty = refl; prefix = λ k h. prefixes k h }
  where
    prefixes :
        (k : ℕ)
        → k < 2
        → (message : String) × (from_slice (take k (91 ∷ 93 ∷ [])) ≡ garbled message)
    prefixes zero h = (_, refl)
    prefixes (suc zero) h = (_, refl)
    prefixes (suc (suc k)) h = absurd (omega arith)

load_journal_ops-Recovered_example : Recovered to_vec (joined ∷ []) next (
    load_journal_ops from_slice
      (holds (file_of to_vec (joined ∷ []) ++ take 1 (line_of to_vec next)))
      Repair.done)
load_journal_ops-Recovered_example =
    load_journal_ops-Recovered to_vec from_slice (joined ∷ []) next 1
      (joined-IsJson, (next-IsJson, tt))

registered-lines : All (IsJson to_vec from_slice) (lines registered ++ next ∷ [])
unfolding register_node journal_op
registered-lines = (joined-IsJson, (next-IsJson, tt))

-- What a crash one byte into `next` leaves.
abbrev left : Disk
left = crashed (file_of to_vec (lines registered) ++ take 1 (line_of to_vec next))

abbrev start : Disk → Started
start =
    load_persistent_state from_slice state_from_slice (some (healthy "/var/lib/bigtop" []))
      Ipam.default 9

load_persistent_state-Booted_example :
    (start left
      ≡ refused
          (persistence (append "cannot lock data dir: " (show_store (locked_by "/var/lib/bigtop"))))
          left)
    × Booted to_vec [] registered next 9 (start (lock_removed left))
load_persistent_state-Booted_example =
    load_persistent_state-Booted to_vec from_slice state_from_slice to_json "/var/lib/bigtop" [] []
      9 registered next 1 up registered-lines

abbrev snapshot_of_nothing : DurableState
snapshot_of_nothing = record {
  jobs = [];
  tasks = [];
  nodes = [];
  snapshots = [];
  ipam = record { base0 = 172; base1 = 28; node_subnets = []; allocated = [] };
}

-- A JSON library that knows one state.
abbrev one_state : List ℕ → ParsedState
one_state [] = garbled_state "EOF while parsing a value"
one_state (b ∷ bytes) = durable snapshot_of_nothing

-- A crash behind the rename and the new length of the journal, which loses the new length.
abbrev half : Disk
half = record (unlocked (91 ∷ [])) { snapshot = holds (123 ∷ 125 ∷ []) }

half-Crash : Crash (run_ops (take 5 (compact (123 ∷ 125 ∷ []))) (settled (unlocked (91 ∷ [])))) half
unfolding run_ops compact
half-Crash = record {
  journal = Crashed.before (holds (91 ∷ [])) refl;
  snapshot = Crashed.whole;
  tmp = Crashed.whole;
  locked = refl;
  ordered = inl λ old h. refl;
}

compact-Survivor_example : Survivor one_state snapshot_of_nothing (unlocked (91 ∷ [])) half
compact-Survivor_example =
    compact-Survivor one_state snapshot_of_nothing (123 ∷ 125 ∷ []) refl 5 (unlocked (91 ∷ [])) half
      half-Crash
