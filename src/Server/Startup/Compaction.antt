-- ===== src/Server/Startup/Compaction.antt =====
-- journal.rs: a crash in the middle of a compaction.
use bigtop.Common.{ℕ, zero, suc, ◌≡◌, ◌⊎◌, refl, ap, ◌∙◌, inl, inr, some, List, [], take, arith}
use bigtop.Server.Journal.File.{IoResult, Content}
use bigtop.Server.Replay.{DurableState}
use bigtop.Server.Startup.{ParsedState, durable, Disk, load_snapshot}
use bigtop.Server.Startup.Compact.{Pending, File, Volume, on_disk, settled, run_ops, compact}

-- What a crash leaves of a file.
pub data Crashed (file : File) : Content → Type 0 where
  whole : Crashed file file.content
  before : (old : Content) → file.pending ≡ Pending.former old → Crashed file old
  anything : (left : Content) → file.pending ≡ Pending.torn → Crashed file left

-- What it leaves of the directory. The new name of the snapshot reaches the disk before the new length
-- of the journal, which is set behind it.
pub record Crash (v : Volume) (disk : Disk) : Type 0 where
  pub journal : Crashed v.journal disk.journal
  pub snapshot : Crashed v.snapshot disk.snapshot
  pub tmp : Crashed v.tmp disk.tmp
  pub locked : disk.locked ≡ v.locked
  pub ordered :
      ((old : Content)
        → v.snapshot.pending ≡ Pending.former old
        → disk.snapshot ≡ v.snapshot.content)
      ⊎ ((old : Content) → v.journal.pending ≡ Pending.former old → disk.journal ≡ old)

-- What a restart can find: the old snapshot with the old journal, or the new snapshot with the old
-- journal or an empty one.
pub data Survivor (state_from_slice : List ℕ → ParsedState) (d : DurableState) (before after : Disk)
    : Type 0 where
  old :
      load_snapshot state_from_slice after.snapshot ≡ load_snapshot state_from_slice before.snapshot
      → after.journal ≡ before.journal
      → Survivor state_from_slice d before after
  new :
      load_snapshot state_from_slice after.snapshot ≡ IoResult.ok (some d)
      → (after.journal ≡ before.journal) ⊎ (after.journal ≡ Content.holds [])
      → Survivor state_from_slice d before after

-- A file with nothing pending is left as it is.
kept : (content left : Content) → Crashed (on_disk content) left → left ≡ content
kept content _ Crashed.whole = refl
kept content _ (Crashed.before other h) = absurd (ground arith)
kept content _ (Crashed.anything left h) = absurd (ground arith)

-- A file whose new name or length is pending has it, or it is as it was.
replaced :
    (content former left : Content)
    → Crashed (record { content = content; pending = Pending.former former }) left
    → (left ≡ former) ⊎ (left ≡ content)
replaced content former _ Crashed.whole = inr refl
replaced content former _ (Crashed.before other h) = inl (ground arith)
replaced content former _ (Crashed.anything left h) = absurd (ground arith)

module _ (state_from_slice : List ℕ → ParsedState) (d : DurableState) (content : List ℕ)
    (reads : state_from_slice content ≡ durable d) where
  loaded : load_snapshot state_from_slice (Content.holds content) ≡ IoResult.ok (some d)
  unfolding load_snapshot
  loaded = rw (load_snapshot, reads) refl

  -- Behind the rename.
  renamed :
      (disk after : Disk)
      → after.snapshot ≡ Content.holds content
      → (after.journal ≡ disk.journal) ⊎ (after.journal ≡ Content.holds [])
      → Survivor state_from_slice d disk after
  renamed disk after s j = Survivor.new (ap (load_snapshot state_from_slice) s ∙ loaded) j

  -- Before it.
  unnamed :
      (disk after : Disk)
      → after.snapshot ≡ disk.snapshot
      → after.journal ≡ disk.journal
      → Survivor state_from_slice d disk after
  unnamed disk after s j = Survivor.old (ap (load_snapshot state_from_slice) s) j

  -- Behind the rename, while it may still be lost.
  unsynced :
      (disk after : Disk)
      → (after.snapshot ≡ disk.snapshot) ⊎ (after.snapshot ≡ Content.holds content)
      → after.journal ≡ disk.journal
      → Survivor state_from_slice d disk after
  unsynced disk after (inl s) j = unnamed disk after s j
  unsynced disk after (inr s) j = renamed disk after s (inl j)

  -- While the new length of the journal may be lost too, but not alone.
  truncated :
      (disk after : Disk)
      → (after.snapshot ≡ disk.snapshot) ⊎ (after.snapshot ≡ Content.holds content)
      → (after.journal ≡ disk.journal) ⊎ (after.journal ≡ Content.holds [])
      → (after.snapshot ≡ Content.holds content) ⊎ (after.journal ≡ disk.journal)
      → Survivor state_from_slice d disk after
  truncated disk after s j (inl snapshot) = renamed disk after snapshot j
  truncated disk after s j (inr journal) = unsynced disk after s journal

  -- However many of its calls a compaction has made when the server crashes or a call fails, a
  -- restart loads the old snapshot and finds the journal as it was, or it loads the new state and
  -- finds the journal as it was or empty. The JSON library is assumed to read the state that was
  -- written. A crash may leave anything in a file with bytes that are not synced, and undo a rename
  -- or a new length that is not synced, but the file system is assumed to keep these two in their
  -- order: `compact` does not sync the directory between them.
  pub compact-Survivor :
      (n : ℕ) (disk after : Disk)
      → Crash (run_ops (take n (compact content)) (settled disk)) after
      → Survivor state_from_slice d disk after
  unfolding run_ops compact
  compact-Survivor zero disk after c =
      unnamed disk after (kept disk.snapshot _ c.snapshot) (kept disk.journal _ c.journal)
  compact-Survivor (suc zero) disk after c =
      unnamed disk after (kept disk.snapshot _ c.snapshot) (kept disk.journal _ c.journal)
  compact-Survivor (suc (suc zero)) disk after c =
      unnamed disk after (kept disk.snapshot _ c.snapshot) (kept disk.journal _ c.journal)
  compact-Survivor (suc (suc (suc zero))) disk after c =
      unnamed disk after (kept disk.snapshot _ c.snapshot) (kept disk.journal _ c.journal)
  compact-Survivor (suc (suc (suc (suc zero)))) disk after c =
      unsynced disk after (replaced (Content.holds content) disk.snapshot _ c.snapshot)
        (kept disk.journal _ c.journal)
  compact-Survivor (suc (suc (suc (suc (suc zero))))) disk after c =
      truncated disk after (replaced (Content.holds content) disk.snapshot _ c.snapshot)
        (replaced (Content.holds []) disk.journal _ c.journal)
        (elim c.ordered [
          | inl snapshot ↦ inl (snapshot disk.snapshot refl)
          | inr journal ↦ inr (journal disk.journal refl)
        ])
  compact-Survivor (suc (suc (suc (suc (suc (suc zero)))))) disk after c =
      renamed disk after (kept (Content.holds content) _ c.snapshot)
        (inr (kept (Content.holds []) _ c.journal))
  compact-Survivor (suc (suc (suc (suc (suc (suc (suc n))))))) disk after c =
      renamed disk after (kept (Content.holds content) _ c.snapshot)
        (inr (kept (Content.holds []) _ c.journal))
