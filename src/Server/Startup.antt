-- ===== src/Server/Startup.antt =====
-- crates/bigtop-server/src/lib.rs: `load_persistent_state`, with the parts of journal.rs that it calls:
-- the lock of the data directory and the compacted snapshot.
pub mod Compact
pub mod Compaction
pub mod Boot
use Prim.Native.String.{◌++◌ as append}
use bigtop.Common.{ℕ, zero, Bool, true, false, Option, none, some, List, [], ◌∷◌, ◌++◌, String}
use bigtop.Common.Decimal.{show}
use bigtop.Core.Error.{Error}
use bigtop.Server.Ipam.{Ipam}
use bigtop.Server.Journal.{JournalOp, JournalWriter}
use bigtop.Server.Journal.File.{
  IoError, corrupt_line, invalid_data, other, IoResult, Parsed, Content, Repair, Loaded,
  load_journal_ops,
}
use bigtop.Server.State
use bigtop.Server.State.{StateInner}
use bigtop.Server.Replay.{DurableState, restore, apply_ops}

-- What `serde_json::from_slice` returns for a snapshot.
pub data ParsedState : Type 0 where
  durable : DurableState → ParsedState
  garbled_state : String → ParsedState

-- The data directory: the journal, the snapshot, the temporary file of a compaction, and the lock file.
pub record Disk : Type 0 where
  pub journal : Content
  pub snapshot : Content
  pub tmp : Content
  pub locked : Bool

pub data ServerError : Type 0 where
  network persistence auth : String → ServerError

-- `io::Error` as text.
unfoldable pub show_io : IoError → String
show_io (invalid_data message) = message
show_io (corrupt_line n message) =
    append "corrupt journal line " (append (show n) (append ": " message))
show_io (other message) = message

pub data StoreError : Type 0 where
  locked_by : String → StoreError
  io : String → StoreError

-- `impl Display for StoreError`
unfoldable pub show_store : StoreError → String
show_store (locked_by dir) =
    append "data directory "
      (append dir " is already in use by another server (lock file present and open)")
show_store (io message) = append "data directory I/O error: " message

-- `DirLock::acquire`: the error, if there is one, and the directory behind it.
unfoldable pub acquire : String → Option String → Disk → Option StoreError × Disk
acquire dir broken disk = elim broken [
  | some message ↦ (some (io message), disk)
  | none ↦ elim disk.locked [
    | true ↦ (some (locked_by dir), disk)
    | false ↦ (none, record disk { locked = true })
  ]
]

-- `DirLock::drop`
unfoldable pub unlock : Disk → Disk
unlock disk = record disk { locked = false }

-- What the file system does on this startup: errors of the directory, the lock and the opening, the
-- outcome of a repair of the journal, and the outcomes of the appends to come.
pub record Host : Type 0 where
  pub dir : String
  pub canonical : String
  pub dir_error : Option String
  pub lock_error : Option String
  pub repair : Repair
  pub open_error : Option String
  pub appends : List (Option String)

pub data Started : Type 0 where
  running : StateInner → Disk → Started
  refused : ServerError → Disk → Started

module _ (state_from_slice : List ℕ → ParsedState) where
  unfoldable pub load_snapshot : Content → IoResult (Option DurableState)
  load_snapshot Content.missing = IoResult.ok none
  load_snapshot (Content.unreadable message) = IoResult.err (other message)
  load_snapshot (Content.holds content) = elim (state_from_slice content) [
    | durable d ↦ IoResult.ok (some d)
    | garbled_state message ↦ IoResult.err (invalid_data message)
  ]

-- `durable.restore`, where there is a snapshot.
abbrev pub restored : Option DurableState → ℕ → StateInner → StateInner
restored none now s = s
restored (some d) now s = restore d s now

-- The state that is served: the replayed one with the journal opened for appends.
abbrev pub opened_for : List JournalOp → List (Option String) → StateInner → StateInner
opened_for ops appends s = record s {
  journal = some (record { lines = ops; ops_written = zero; disk = appends });
}

-- `load_persistent_state` behind the journal: a refused start gives the lock back.
unfoldable pub resume : Host → Ipam → ℕ → Disk → Option DurableState → Loaded → Started
unfolding apply_ops restore show_io unlock
resume host ipam now disk d loaded =
    let after : Disk = record disk { journal = loaded.file } in
    elim loaded.ops [
      | IoResult.err e ↦
          refused (persistence (append "cannot replay journal: " (show_io e))) (unlock after)
      | IoResult.ok ops ↦ elim host.open_error [
        | some message ↦
            refused (persistence (append "cannot open journal: " message)) (unlock after)
        | none ↦
            running
              (opened_for ops host.appends
                (apply_ops (restored d now (record State.default { ipam = ipam })) ops now))
              after
      ]
    ]

module _ (from_slice : List ℕ → Parsed) (state_from_slice : List ℕ → ParsedState) where
  -- `load_persistent_state` behind the lock.
  unfoldable pub load_locked : Host → Ipam → ℕ → Disk → Started
  unfolding load_snapshot load_journal_ops resume
  load_locked host ipam now disk = elim (load_snapshot state_from_slice disk.snapshot) [
    | IoResult.err e ↦
        refused (persistence (append "cannot load snapshot: " (show_io e))) (unlock disk)
    | IoResult.ok d ↦
        resume host ipam now disk d (load_journal_ops from_slice disk.journal host.repair)
  ]

  -- `load_persistent_state` with a data directory.
  unfoldable pub load_dir : Host → Ipam → ℕ → Disk → Started
  unfolding acquire load_locked show_store
  load_dir host ipam now disk = elim host.dir_error [
    | some message ↦
        refused
          (persistence
            (append "cannot create data directory " (append host.dir (append ": " message))))
          disk
    | none ↦
        let taken = acquire host.canonical host.lock_error disk in
        elim taken.0 [
          | some e ↦ refused (persistence (append "cannot lock data dir: " (show_store e))) taken.1
          | none ↦ load_locked host ipam now taken.1
        ]
  ]

  unfoldable pub load_persistent_state : Option Host → Ipam → ℕ → Disk → Started
  unfolding load_dir
  load_persistent_state none ipam now disk = running (record State.default { ipam = ipam }) disk
  load_persistent_state (some host) ipam now disk = load_dir host ipam now disk
