-- ===== src/Server/Startup/Compact.antt =====
-- journal.rs: `compact` and `truncate_journal`, the calls on files that replace the snapshot.
use bigtop.Common.{ℕ, Bool, List, [], ◌∷◌, ◌++◌}
use bigtop.Server.Journal.File.{Content}
use bigtop.Server.Startup.{Disk}

-- What of a file is not on the disk yet: nothing; its new name or length, so that a crash may bring
-- back what was there before; or bytes that were written, so that a crash may leave anything.
pub data Pending : Type 0 where
  nothing torn : Pending
  former : Content → Pending

pub record File : Type 0 where
  pub content : Content
  pub pending : Pending

-- The files of the directory as the processes see them, and what is pending.
pub record Volume : Type 0 where
  pub journal : File
  pub snapshot : File
  pub tmp : File
  pub locked : Bool

abbrev pub on_disk : Content → File
on_disk content = record { content = content; pending = Pending.nothing }

abbrev pub settled : Disk → Volume
settled disk = record {
  journal = on_disk disk.journal;
  snapshot = on_disk disk.snapshot;
  tmp = on_disk disk.tmp;
  locked = disk.locked;
}

-- The calls on the file system.
pub data FileOp : Type 0 where
  create_tmp sync_tmp rename_tmp empty_journal sync_journal : FileOp
  write_tmp : List ℕ → FileOp

-- `File::create` and `write_all`
unfoldable pub written : List ℕ → Content → Content
written bytes (Content.holds old) = Content.holds (old ++ bytes)
written bytes content = content

-- A synced file.
abbrev pub sync : File → File
sync file = record file { pending = Pending.nothing }

-- `rename`: the file, under the name of `old`. It does not sync the bytes.
unfoldable pub renamed_over : File → File → File
renamed_over old file = record {
  content = file.content;
  pending = elim file.pending [ Pending.torn ↦ Pending.torn | _ ↦ Pending.former old.content ];
}

-- A change of a name that was made before a synced one is on the disk with it.
unfoldable pub named : File → File
named file = record file {
  pending = elim file.pending [ Pending.torn ↦ Pending.torn | _ ↦ Pending.nothing ];
}

unfoldable pub apply_op : FileOp → Volume → Volume
unfolding written renamed_over named
apply_op create_tmp v = record v {
  tmp = record { content = Content.holds []; pending = Pending.torn };
}
apply_op (write_tmp bytes) v = record v {
  tmp = record { content = written bytes v.tmp.content; pending = Pending.torn };
}
apply_op sync_tmp v = record v { tmp = sync v.tmp }
apply_op rename_tmp v = record v {
  snapshot = renamed_over v.snapshot v.tmp;
  tmp = record { content = Content.missing; pending = Pending.torn };
}
apply_op empty_journal v = record v {
  journal = record { content = Content.holds []; pending = Pending.former v.journal.content };
}
apply_op sync_journal v = record v { journal = sync v.journal; snapshot = named v.snapshot }

unfoldable pub run_ops : List FileOp → Volume → Volume
unfolding apply_op
run_ops [] v = v
run_ops (op ∷ ops) v = run_ops ops (apply_op op v)

unfoldable pub truncate_journal : List FileOp
truncate_journal = empty_journal ∷ sync_journal ∷ []

-- The calls of `compact`; the first one that fails ends it. `content` is the state as JSON.
unfoldable pub compact : List ℕ → List FileOp
unfolding truncate_journal
compact content = create_tmp ∷ write_tmp content ∷ sync_tmp ∷ rename_tmp ∷ truncate_journal
