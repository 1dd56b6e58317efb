-- ===== src/Server/Journal/File.antt =====
-- journal.rs: the bytes of the journal file, how they are written and how they are loaded on startup.
-- The JSON library is a pair of parameters: `to_vec`, the text of an operation, and `from_slice`.
use bigtop.Common.{
  ℕ, ◌+◌, Bool, true, false, List, [], ◌∷◌, ◌++◌, String, filter, eqb, if◌then◌else◌,
}
use bigtop.Server.Journal.{JournalOp}

abbrev pub newline : ℕ
newline = 10

-- `std::io::Error`, as far as its kind matters.
pub data IoError : Type 0 where
  invalid_data : String → IoError
  corrupt_line : ℕ → String → IoError
  other : String → IoError

pub data IoResult {ℓ} (A : Type ℓ) : Type ℓ where
  ok : A → IoResult A
  err : IoError → IoResult A

-- What `serde_json::from_slice` returns.
pub data Parsed : Type 0 where
  op : JournalOp → Parsed
  garbled : String → Parsed

-- What `std::fs::read` finds.
pub data Content : Type 0 where
  missing : Content
  holds : List ℕ → Content
  unreadable : String → Content

-- What becomes of a repair of the file: it is done, or it fails, before or after the change reached
-- the file.
pub data Repair : Type 0 where
  done : Repair
  broken : Bool → String → Repair

pub record Loaded : Type 0 where
  pub ops : IoResult (List JournalOp)
  pub file : Content

-- `bytes` up to and including the last newline, and what comes behind it.
unfoldable pub cut : List ℕ → List ℕ × List ℕ
cut [] = ([], [])
cut (b ∷ bytes) =
    let rest = cut bytes in
    elim rest.0 [
      | [] ↦ if eqb b newline then (b ∷ [], rest.1) else ([], b ∷ rest.1)
      | c ∷ complete ↦ (b ∷ c ∷ complete, rest.1)
    ]

abbrev pub extend_first : ℕ → List (List ℕ) → List (List ℕ)
extend_first b [] = (b ∷ []) ∷ []
extend_first b (piece ∷ pieces) = (b ∷ piece) ∷ pieces

-- `bytes.split(|b| *b == b'\n')`
unfoldable pub split : List ℕ → List (List ℕ)
split [] = [] ∷ []
split (b ∷ bytes) =
    let rest = split bytes in if eqb b newline then [] ∷ rest else extend_first b rest

abbrev pub is_line : List ℕ → Bool
is_line [] = false
is_line (b ∷ line) = true

-- `file.set_len`, or the newline that is appended; nothing if the how broke down before that.
abbrev pub change : Repair → List ℕ → List ℕ → Content
change done old new = holds new
change (broken true message) old new = holds new
change (broken false message) old new = holds old

module _ (from_slice : List ℕ → Parsed) where
  -- The loop over the lines; `index` counts from 0.
  unfoldable pub parse_lines : ℕ → List (List ℕ) → IoResult (List JournalOp)
  parse_lines index [] = ok []
  parse_lines index (line ∷ lines) =
      let rest = parse_lines (index + 1) lines in
      elim (from_slice line) [
        | garbled message ↦ err (corrupt_line (index + 1) message)
        | op o ↦ elim rest [ err e ↦ err e | ok ops ↦ ok (o ∷ ops) ]
      ]

  -- The lines up to the last newline, and the operation behind it, if there is one.
  unfoldable pub collect : List ℕ → List JournalOp → IoResult (List JournalOp)
  unfolding parse_lines split
  collect complete tail_op = elim (parse_lines 0 (filter is_line (split complete))) [
    | err e ↦ err e
    | ok ops ↦ ok (ops ++ tail_op)
  ]

  -- `load_journal_ops` where the file ends in `tail`, behind the last newline.
  unfoldable pub load_tail : List ℕ → List ℕ → Repair → Loaded
  unfolding collect
  load_tail complete [] how = record { ops = collect complete []; file = holds (complete ++ []) }
  load_tail complete (b ∷ tail) how = elim (from_slice (b ∷ tail)) [
    | op o ↦
        let file = change how (complete ++ b ∷ tail) (complete ++ b ∷ tail ++ newline ∷ []) in
        elim how [
          | broken applied message ↦ record { ops = err (other message); file = file }
          | done ↦ record { ops = collect complete (o ∷ []); file = file }
        ]
    | garbled reason ↦
        let file = change how (complete ++ b ∷ tail) complete in
        elim how [
          | broken applied message ↦ record { ops = err (other message); file = file }
          | done ↦ record { ops = collect complete []; file = file }
        ]
  ]

  unfoldable pub load_journal_ops : Content → Repair → Loaded
  unfolding cut load_tail
  load_journal_ops missing how = record { ops = ok []; file = missing }
  load_journal_ops (unreadable message) how = record {
    ops = err (other message);
    file = unreadable message;
  }
  load_journal_ops (holds content) how = load_tail (cut content).0 (cut content).1 how

module _ (to_vec : JournalOp → List ℕ) where
  -- What `append` writes for an operation.
  abbrev pub line_of : JournalOp → List ℕ
  line_of o = to_vec o ++ newline ∷ []

  -- The file behind the appends of `ops`.
  unfoldable pub file_of : List JournalOp → List ℕ
  file_of [] = []
  file_of (o ∷ ops) = line_of o ++ file_of ops
