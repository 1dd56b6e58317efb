-- ===== src/Server/Startup/Boot.antt =====
-- lib.rs: the server that starts again after a crash.
use Prim.Native.String.{◌++◌ as append}
use bigtop.Common.{
  ℕ, ◌≡◌, ◌⊎◌, refl, sym, ap, subst, ◌∙◌, inl, inr, true, false, Option, none, some, List, [], ◌∷◌,
  ◌++◌, All, take, String, zero,
}
use bigtop.Server.Ipam
use bigtop.Server.Journal.{JournalOp}
use bigtop.Server.Journal.File.{
  IoResult, Parsed, holds, missing, Repair, Loaded, load_journal_ops, line_of, file_of,
}
use bigtop.Server.Journal.Lines.{IsJson}
use bigtop.Server.Journal.Crash.{Recovered, load_journal_ops-Recovered}
use bigtop.Server.State
use bigtop.Server.State.{StateInner}
use bigtop.Server.Replay.{apply_ops}
use bigtop.Server.Replay.Same.{Same, lines}
use bigtop.Server.Replay.Recovery.{opened, Run, apply_ops-lines}
use bigtop.Server.Startup.{
  ParsedState, Disk, Host, Started, running, refused, persistence, locked_by, show_store,
  opened_for, load_locked, load_persistent_state, resume, acquire, load_snapshot,
}

-- A directory in which everything works.
abbrev pub healthy : String → List (Option String) → Host
healthy dir appends = record {
  dir = dir;
  canonical = dir;
  dir_error = none;
  lock_error = none;
  repair = Repair.done;
  open_error = none;
  appends = appends;
}

-- What an unlocked directory without a snapshot holds.
abbrev pub unlocked : List ℕ → Disk
unlocked journal = record {
  journal = holds journal;
  snapshot = missing;
  tmp = missing;
  locked = false;
}

-- What a crash of the server leaves: it held the lock, whose file stays.
abbrev pub crashed : List ℕ → Disk
crashed journal = record (unlocked journal) { locked = true }

-- The operator removes the lock file.
abbrev pub lock_removed : Disk → Disk
lock_removed disk = record disk { locked = false }

-- The state `t` is served, its journal open behind the entries `kept`, the directory locked.
pub record Booted (to_vec : JournalOp → List ℕ) (appends : List (Option String)) (u : StateInner)
    (o : JournalOp) (later : ℕ) (started : Started) : Type 0 where
  pub t : StateInner
  pub disk : Disk
  pub kept : List JournalOp
  pub served : started ≡ running t disk
  pub file : disk.journal ≡ holds (file_of to_vec kept)
  pub lock : disk.locked ≡ true
  pub journal : t.journal ≡ some (record { lines = kept; ops_written = zero; disk = appends })
  pub state :
      Same u (record t { journal = none })
      ⊎ (record t { journal = none } ≡ apply_ops State.default (lines u ++ o ∷ []) later)

module _ (to_vec : JournalOp → List ℕ) (from_slice : List ℕ → Parsed)
    (state_from_slice : List ℕ → ParsedState)
    (to_json : List (String × List String) → Option String) (dir : String)
    (appends disk : List (Option String)) (later : ℕ) where
  resumed :
      (kept : List JournalOp) (l : Loaded) (found : Disk)
      → l.ops ≡ IoResult.ok kept
      → resume (healthy dir appends) Ipam.default later found none l
        ≡ running
            (opened_for kept appends (apply_ops State.default kept later))
            (record found { journal = l.file })
  unfolding resume Ipam.default
  resumed kept l found result = rw (result, resume)

  -- The start, once the journal is loaded.
  boot-served :
      (journal : List ℕ) (kept : List JournalOp) (l : Loaded)
      → load_journal_ops from_slice (holds journal) Repair.done ≡ l
      → l.ops ≡ IoResult.ok kept
      → load_persistent_state from_slice state_from_slice
          (some (healthy dir appends))
          Ipam.default
          later
          (unlocked journal)
        ≡ running
            (opened_for kept appends (apply_ops State.default kept later))
            (record (unlocked journal) { journal = l.file; locked = true })
  unfolding load_persistent_state load_locked acquire load_snapshot Ipam.default
  boot-served journal kept l e result =
      ap
        (resume (healthy dir appends) Ipam.default later
          (record (unlocked journal) { locked = true }) none)
        e
      ∙ resumed kept l (record (unlocked journal) { locked = true }) result

  boot-loaded :
      (u : StateInner) (o : JournalOp) (journal : List ℕ) (l : Loaded)
      → load_journal_ops from_slice (holds journal) Repair.done ≡ l
      → Run to_json (opened disk) u
      → Recovered to_vec (lines u) o l
      → Booted to_vec appends u o later (
          load_persistent_state from_slice state_from_slice
            (some (healthy dir appends))
            Ipam.default
            later
            (unlocked journal))
  unfolding apply_ops
  boot-loaded u o journal l e run r = record {
    t = opened_for r.kept appends (apply_ops State.default r.kept later);
    disk = record (unlocked journal) { journal = l.file; locked = true };
    kept = r.kept;
    served = boot-served journal r.kept l e r.result;
    file = r.file;
    lock = refl;
    journal = refl;
    state = elim r.which [
      | inl before ↦ inl (
          subst (λ ops. Same u (record (apply_ops State.default ops later) { journal = none }))
            (sym before) (apply_ops-lines to_json later disk u run))
      | inr after ↦ inr (ap (λ ops. apply_ops State.default ops later) after)
    ];
  }

  -- The start is refused while the lock file is there.
  crashed-refused :
      (journal : List ℕ)
      → load_persistent_state from_slice state_from_slice
          (some (healthy dir appends))
          Ipam.default
          later
          (crashed journal)
        ≡ refused
            (persistence (append "cannot lock data dir: " (show_store (locked_by dir))))
            (crashed journal)
  unfolding load_persistent_state acquire Ipam.default
  crashed-refused journal = refl

  -- After any run of successful operations and passes that began with an empty state and an empty
  -- journal, and a crash when any number of bytes of one more entry had been written, which leaves the
  -- lock file: a server that starts on the directory, without a snapshot and otherwise working, is
  -- refused and changes nothing there. Once the operator has removed the lock file, it serves a state,
  -- locks the directory, and leaves the journal as complete lines behind which it appends. The state
  -- stands for the one before the crash, or it is what the replay of the entries with the one in
  -- flight gives. The JSON library is assumed to read what it wrote, to write an operation as one line
  -- that is not empty, and to reject what is only the beginning of an operation.
  pub load_persistent_state-Booted :
      (u : StateInner) (o : JournalOp) (k : ℕ)
      → Run to_json (opened disk) u
      → All (IsJson to_vec from_slice) (lines u ++ o ∷ [])
      → let left : Disk = crashed (file_of to_vec (lines u) ++ take k (line_of to_vec o)) in
        let start : Disk → Started =
          load_persistent_state from_slice state_from_slice
            (some (healthy dir appends))
            Ipam.default
            later in
        (start left
          ≡ refused
              (persistence (append "cannot lock data dir: " (show_store (locked_by dir))))
              left)
        × Booted to_vec appends u o later (start (lock_removed left))
  load_persistent_state-Booted u o k run vs =
      let journal : List ℕ = file_of to_vec (lines u) ++ take k (line_of to_vec o) in
      (
        crashed-refused journal,
        boot-loaded u o journal _ refl run
            (load_journal_ops-Recovered to_vec from_slice (lines u) o k vs),
      )
