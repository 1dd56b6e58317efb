-- ===== src/Server/Journal/Lines.antt =====
-- journal.rs: the lines of a journal file that was written by appends.
use bigtop.Common.{
  ℕ, ◌+◌, ◌<◌, ◌≡◌, refl, ap, sym, ◌∙◌, true, false, List, [], ◌∷◌, ◌++◌, String, length, take,
  filter, map, any, All, eqb, arith, append_assoc, append-nil,
}
use bigtop.Server.Journal.{JournalOp}
use bigtop.Server.Journal.File.{
  newline, IoResult, Parsed, op, garbled, cut, split, is_line, parse_lines, collect, line_of,
  file_of,
}

-- There is no newline in the bytes.
abbrev pub IsPlain : List ℕ → Type 0
IsPlain w = any (λ b. eqb b newline) w ≡ false

cut-plain : (t : List ℕ) → IsPlain t → cut t ≡ ([], t)
unfolding cut
cut-plain [] h = refl
cut-plain (b ∷ t) h = ground (arith, cut-plain t (ground arith))

cut-cons :
    (b : ℕ) (content : List ℕ) (c : ℕ) (complete t : List ℕ)
    → cut content ≡ (c ∷ complete, t)
    → cut (b ∷ content) ≡ (b ∷ c ∷ complete, t)
unfolding cut
cut-cons b content c complete t e = ground arith

cut-append : (w t : List ℕ) → IsPlain t → cut (w ++ newline ∷ t) ≡ (w ++ newline ∷ [], t)
unfolding cut
cut-append [] t h = ground (arith, cut-plain t h)
cut-append (b ∷ []) t h = ground (arith, cut-plain t h)
cut-append (b ∷ c ∷ w) t h =
    cut-cons b (c ∷ w ++ newline ∷ t) c (w ++ newline ∷ []) t (cut-append (c ∷ w) t h)

split-append : (w rest : List ℕ) → IsPlain w → split (w ++ newline ∷ rest) ≡ w ∷ split rest
unfolding split
split-append [] rest h = refl
split-append (b ∷ w) rest h = ground (arith, split-append w rest (ground arith))

-- What the development relies on of the JSON library: an operation is written on one line and read
-- back, and as the text of an object it is no longer one when its end is missing.
pub record IsJson (to_vec : JournalOp → List ℕ) (from_slice : List ℕ → Parsed) (o : JournalOp)
    : Type 0 where
  pub round : from_slice (to_vec o) ≡ op o
  pub plain : IsPlain (to_vec o)
  pub nonempty : is_line (to_vec o) ≡ true
  pub prefix :
      (k : ℕ)
      → k < length (to_vec o)
      → (message : String) × (from_slice (take k (to_vec o)) ≡ garbled message)

module _ (to_vec : JournalOp → List ℕ) (from_slice : List ℕ → Parsed) where
  -- A file that is not empty ends in a newline.
  file_of-last :
      (o : JournalOp) (ops : List JournalOp)
      → (w : List ℕ) × (file_of to_vec (o ∷ ops) ≡ w ++ newline ∷ [])
  unfolding file_of
  file_of-last o [] = (to_vec o, append-nil (line_of to_vec o))
  file_of-last o (p ∷ ops) =
      let (w, e) = file_of-last p ops in
      (
        line_of to_vec o ++ w,
        ap (◌++◌ (line_of to_vec o)) e ∙ sym (append_assoc (line_of to_vec o) w (newline ∷ [])),
      )

  pub cut-file_of :
      (ops : List JournalOp) (t : List ℕ)
      → IsPlain t
      → cut (file_of to_vec ops ++ t) ≡ (file_of to_vec ops, t)
  unfolding file_of
  cut-file_of [] t h = cut-plain t h
  cut-file_of (o ∷ ops) t h =
      let (w, e) = file_of-last o ops in rw (e, append_assoc w (newline ∷ []) t) (cut-append w t h)

  lines-file_of :
      (ops : List JournalOp)
      → All (IsJson to_vec from_slice) ops
      → filter is_line (split (file_of to_vec ops)) ≡ map to_vec ops
  unfolding file_of split
  lines-file_of [] vs = refl
  lines-file_of (o ∷ ops) vs =
      rw
        (
          append_assoc (to_vec o) (newline ∷ []) (file_of to_vec ops),
          split-append (to_vec o) (file_of to_vec ops) vs.0.plain,
          vs.0.nonempty,
        )
        (ap (◌∷◌ (to_vec o)) (lines-file_of ops vs.1))

  parse_lines-map :
      (n : ℕ) (ops : List JournalOp)
      → All (IsJson to_vec from_slice) ops
      → parse_lines from_slice n (map to_vec ops) ≡ IoResult.ok ops
  unfolding parse_lines
  parse_lines-map n [] vs = refl
  parse_lines-map n (o ∷ ops) vs = rw (vs.0.round, parse_lines-map (n + 1) ops vs.1)

  pub collect-file_of :
      (ops tail : List JournalOp)
      → All (IsJson to_vec from_slice) ops
      → collect from_slice (file_of to_vec ops) tail ≡ IoResult.ok (ops ++ tail)
  unfolding collect
  collect-file_of ops tail vs = rw (collect, lines-file_of ops vs, parse_lines-map 0 ops vs)
