-- ===== src/Server/Journal/Crash.antt =====
-- journal.rs: what a restart finds when the server crashed while it appended an operation.
use bigtop.Common.{
  ℕ, zero, suc, ◌+◌, ◌≤◌, ◌≡◌, ◌⊎◌, refl, ap, sym, ◌∙◌, true, List, [], ◌∷◌, ◌++◌, String, length,
  take, All, All-append, arith, append_assoc, append-nil, inl, inr,
}
use native.Mathlib.Decide.{dec_lt}
use bigtop.Server.Journal.{JournalOp}
use bigtop.Server.Journal.File.{
  newline, IoResult, Parsed, garbled, holds, Repair, Loaded, is_line, load_tail, load_journal_ops,
  line_of, file_of,
}
use bigtop.Server.Journal.Lines.{IsPlain, IsJson, cut-file_of, collect-file_of}

take-plain : (k : ℕ) (w : List ℕ) → IsPlain w → IsPlain (take k w)
take-plain zero w h = refl
take-plain (suc k) [] h = refl
take-plain (suc k) (b ∷ w) h = ground (arith, take-plain k w (ground arith))

-- A line that is cut short before its newline.
take-short : (k : ℕ) (w : List ℕ) → k ≤ length w → take k (w ++ newline ∷ []) ≡ take k w
take-short zero w h = refl
take-short (suc k) [] h = absurd (omega arith)
take-short (suc k) (b ∷ w) h = ap (◌∷◌ b) (take-short k w (omega (arith, h)))

take-whole : (k : ℕ) (w : List ℕ) → length w ≤ k → take k w ≡ w
take-whole zero [] h = refl
take-whole zero (b ∷ w) h = absurd (omega (arith, h))
take-whole (suc k) [] h = refl
take-whole (suc k) (b ∷ w) h = ap (◌∷◌ b) (take-whole k w (omega (arith, h)))

length-line : (w : List ℕ) → length (w ++ newline ∷ []) ≡ length w + 1
length-line [] = refl
length-line (b ∷ w) = omega (arith, length-line w)

file_of-snoc :
    (to_vec : JournalOp → List ℕ) (ops : List JournalOp) (o : JournalOp)
    → file_of to_vec (ops ++ o ∷ []) ≡ file_of to_vec ops ++ line_of to_vec o
unfolding file_of
file_of-snoc to_vec [] o = append-nil (line_of to_vec o)
file_of-snoc to_vec (p ∷ ops) o =
    ap (◌++◌ (line_of to_vec p)) (file_of-snoc to_vec ops o)
    ∙ sym (append_assoc (line_of to_vec p) (file_of to_vec ops) (line_of to_vec o))

-- What the load finds, and the file that it leaves behind: the operations that were there, with or
-- without the one that was being appended.
pub record Recovered (to_vec : JournalOp → List ℕ) (ops : List JournalOp) (o : JournalOp)
    (l : Loaded) : Type 0 where
  pub kept : List JournalOp
  pub which : (kept ≡ ops) ⊎ (kept ≡ ops ++ o ∷ [])
  pub result : l.ops ≡ IoResult.ok kept
  pub file : l.file ≡ holds (file_of to_vec kept)

module _ (to_vec : JournalOp → List ℕ) (from_slice : List ℕ → Parsed) where
  load-tail :
      (ops : List JournalOp) (t : List ℕ) (how : Repair)
      → IsPlain t
      → load_journal_ops from_slice (holds (file_of to_vec ops ++ t)) how
        ≡ load_tail from_slice (file_of to_vec ops) t how
  unfolding load_journal_ops
  load-tail ops t how h =
      ap (λ c. load_tail from_slice c.0 c.1 how) (cut-file_of to_vec from_slice ops t h)

  -- A whole file is loaded as it is.
  load-whole :
      (ops : List JournalOp) (how : Repair)
      → All (IsJson to_vec from_slice) ops
      → load_journal_ops from_slice (holds (file_of to_vec ops)) how
        ≡ record { ops = IoResult.ok ops; file = holds (file_of to_vec ops) }
  unfolding load_tail
  load-whole ops how vs =
      ap (λ c. load_journal_ops from_slice (holds c) how) (sym (append-nil (file_of to_vec ops)))
      ∙ load-tail ops [] how refl
      ∙ rw (
        collect-file_of to_vec from_slice ops [] vs,
        append-nil ops,
        append-nil (file_of to_vec ops),
      )

  tail-garbled :
      (ops : List JournalOp) (o : JournalOp) (t : List ℕ) (message : String)
      → All (IsJson to_vec from_slice) ops
      → from_slice t ≡ garbled message
      → Recovered to_vec ops o (load_tail from_slice (file_of to_vec ops) t Repair.done)
  unfolding load_tail
  tail-garbled ops o [] message vs e = record {
    kept = ops;
    which = inl refl;
    result = collect-file_of to_vec from_slice ops [] vs ∙ ap IoResult.ok (append-nil ops);
    file = ap holds (append-nil (file_of to_vec ops));
  }
  tail-garbled ops o (b ∷ t) message vs e =
      rw (e, load_tail)
        (record {
          kept = ops;
          which = inl refl;
          result = collect-file_of to_vec from_slice ops [] vs ∙ ap IoResult.ok (append-nil ops);
          file = refl;
        })

  tail_complete :
      (ops : List JournalOp) (o : JournalOp) (t : List ℕ)
      → All (IsJson to_vec from_slice) (o ∷ ops)
      → is_line t ≡ true
      → t ≡ to_vec o
      → Recovered to_vec ops o (load_tail from_slice (file_of to_vec ops) t Repair.done)
  unfolding load_tail
  tail_complete ops o [] vs l e = absurd (ground arith)
  tail_complete ops o (b ∷ t) vs l e =
      rw (ap from_slice e ∙ vs.0.round, load_tail)
        (record {
          kept = ops ++ o ∷ [];
          which = inr refl;
          result = collect-file_of to_vec from_slice ops (o ∷ []) vs.1;
          file =
              rw (e, file_of-snoc to_vec ops o)
                (ap holds (append_assoc (file_of to_vec ops) (to_vec o) (newline ∷ [])));
        })

  -- When a journal of complete lines ends in any number of bytes of one more entry, loading it
  -- succeeds with the entries of the complete lines, or with those and the last entry, and leaves
  -- the file with exactly the entries that it returned, as complete lines. The JSON library is
  -- assumed to read what it wrote, to write an operation as one line that is not empty, and to
  -- reject what is only the beginning of an operation.
  pub load_journal_ops-Recovered :
      (ops : List JournalOp) (o : JournalOp) (k : ℕ)
      → All (IsJson to_vec from_slice) (ops ++ o ∷ [])
      → Recovered to_vec ops o (
          load_journal_ops from_slice
            (holds (file_of to_vec ops ++ take k (line_of to_vec o)))
            Repair.done)
  load_journal_ops-Recovered ops o k vs = elim (dec_lt k (length (to_vec o))) [
    | yes short ↦
        let (message, e) = new.prefix k short in
        let same = take-short k (to_vec o) (omega arith) in
        rw
          (
            same,
            load-tail ops (take k (to_vec o)) Repair.done (take-plain k (to_vec o) (new.plain)),
          )
          (tail-garbled ops o (take k (to_vec o)) message old e)
    | no long ↦ elim (dec_lt (length (to_vec o)) k) [
      | yes whole ↦
          let same = take-whole k (line_of to_vec o) (omega (arith, length-line (to_vec o))) in
          rw (same, ← file_of-snoc to_vec ops o, load-whole (ops ++ o ∷ []) Repair.done vs)
            (record { kept = ops ++ o ∷ []; which = inr refl; result = refl; file = refl })
      | no exact ↦
          let same =
            take-short k (to_vec o) (omega arith) ∙ take-whole k (to_vec o) (omega arith) in
          rw (same, load-tail ops (to_vec o) Repair.done (new.plain))
            (tail_complete ops o (to_vec o) (new, old) (new.nonempty) refl)
    ]
  ]
    where
      old : All (IsJson to_vec from_slice) ops
      old = (All-append (IsJson to_vec from_slice) ops (o ∷ []) vs).0

      new : IsJson to_vec from_slice o
      new = (All-append (IsJson to_vec from_slice) ops (o ∷ []) vs).1.0
