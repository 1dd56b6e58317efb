-- ===== src/Agent/Firecracker/Quote.antt =====
-- firecracker.rs: a shell that splits the line of `shell_join` finds the words that were joined.
use Prim.Native.Char.{Char, code}
use Prim.Native.String.{◌++◌}
use Prim.Native.String.append
use text.Mathlib.TextEquality.{Char-path}
use text.Mathlib.TextLemmas.{append_assoc, append-nil}
use bigtop.Common.{
  false, ◌||◌, leb, ◌≡◌, refl, ap, sym, ◌∙◌, Bool, true, ◌&&◌, Option, none, some, List, [], ◌∷◌,
  String, eqb, eqb_iff, arith, if◌then◌else◌, Bool-cases, inl, inr,
}
use bigtop.Common.Text.{replace}
use bigtop.Agent.Firecracker.Cmdline.{shell_quote}

-- The letters and the underscore, and with the digits the characters of a variable's name.
abbrev pub is_letter : Char → Bool
is_letter c =
    (leb b'a' (code c) && leb (code c) b'z')
    || (leb b'A' (code c) && leb (code c) b'Z')
    || eqb (code c) b'_'

abbrev pub is_plain : Char → Bool
is_plain c = is_letter c || (leb b'0' (code c) && leb (code c) b'9')

-- The reading of a simple command by a POSIX shell, as far as it is sure: a state between words, in a
-- word, between single quotes, and behind a backslash, with the word so far. Whatever may mean more to
-- a shell where it stands (an operator, an expansion, a comment, a double quote, another space, an
-- escape but that of a quote) is `unsure`, and then nothing is read.
pub data Mode : Type 0 where
  between inside quoted escaped unsure : Mode

-- What a character outside of quotes means to a word that it begins or goes on.
abbrev pub outside : String → Char → Mode × String × Option String
outside word c =
    if eqb (code c) b'\''
    then (Mode.quoted, word, none)
    else (if eqb (code c) b'\\'
        then (Mode.escaped, word, none)
        else (if is_plain c || eqb (code c) b'='
            then (Mode.inside, word ++ String.◌∷◌ c "", none)
            else (Mode.unsure, word, none)))

-- What a character does to the state, and the word that it ends.
unfoldable pub step : Mode → String → Char → Mode × String × Option String
step Mode.unsure word c = (Mode.unsure, word, none)
step Mode.quoted word c =
    if eqb (code c) b'\''
    then (Mode.inside, word, none)
    else (Mode.quoted, word ++ String.◌∷◌ c "", none)
step Mode.escaped word c =
    if eqb (code c) b'\''
    then (Mode.inside, word ++ String.◌∷◌ c "", none)
    else (Mode.unsure, word, none)
step Mode.between word c = if eqb (code c) b' ' then (Mode.between, word, none) else outside "" c
step Mode.inside word c =
    if eqb (code c) b' ' then (Mode.between, "", some word) else outside word c

abbrev pub front : Option String → List String → List String
front none words = words
front (some word) words = word ∷ words

abbrev pub fronts : Option String → Option (List String) → Option (List String)
fronts word none = none
fronts word (some words) = some (front word words)

-- The words of a text, if all quotes are closed and the reading is sure.
unfoldable pub words : Mode → String → String → Option (List String)
unfolding step
words Mode.between word String.[] = some []
words Mode.inside word String.[] = some (word ∷ [])
words Mode.quoted word String.[] = none
words Mode.escaped word String.[] = none
words Mode.unsure word String.[] = none
words mode word (String.◌∷◌ c s) = let n = step mode word c in fronts n.2 (words n.0 n.1 s)

pub fronts-none : (o : Option (List String)) → fronts none o ≡ o
fronts-none none = refl
fronts-none (some words) = refl

-- A character at the end of a text, and then the rest.
append-snoc :
    (s : String) (c : Char) (t : String) → (s ++ String.◌∷◌ c "") ++ t ≡ s ++ String.◌∷◌ c t
append-snoc s c t =
    append_assoc s (String.◌∷◌ c "") t
    ∙ ap (λ r. s ++ r) (append.cons c "" t ∙ ap (String.◌∷◌ c) (append.nil t))

-- The four characters that stand for a quote between quotes.
words-escape :
    (word t : String)
    → words Mode.quoted word ("'\\''" ++ t) ≡ words Mode.quoted (word ++ String.◌∷◌ "'" "") t
unfolding words
words-escape word t = ap (words Mode.quoted word) spread ∙ simp fronts-none refl
  where
    spread : "'\\''" ++ t ≡ String.◌∷◌ "'" (String.◌∷◌ "\\" (String.◌∷◌ "'" (String.◌∷◌ "'" t)))
    spread =
        append.cons "'" "\\''" t
        ∙ ap (String.◌∷◌ "'") (
            append.cons "\\" "''" t
            ∙ ap (String.◌∷◌ "\\") (
                append.cons "'" "'" t
                ∙ ap (String.◌∷◌ "'") (append.cons "'" "" t ∙ ap (String.◌∷◌ "'") (append.nil t))))

-- Between quotes, the text that stands for `w` is read as `w`, up to the closing quote.
pub words-quoted :
    (word w t : String)
    → words Mode.quoted word (replace b'\'' "'\\''" w ++ String.◌∷◌ "'" t)
      ≡ words Mode.inside (word ++ w) t
unfolding words replace
words-quoted word String.[] t = rw (append.nil (String.◌∷◌ "'" t), append-nil word) (fronts-none _)
words-quoted word (String.◌∷◌ c w) t = elim (Bool-cases (eqb (code c) b'\'')) [
  | inl hit ↦
      let same : c ≡ "'" = Char-path c "'" ((eqb_iff (code c) b'\'').0 hit) in
      rw hit (
        ap (words Mode.quoted word) (append_assoc "'\\''" (replace b'\'' "'\\''" w) _)
        ∙ words-escape word (replace b'\'' "'\\''" w ++ String.◌∷◌ "'" t)
        ∙ words-quoted (word ++ String.◌∷◌ "'" "") w t
        ∙ ap (λ r. words Mode.inside r t)
            (append-snoc word "'" w ∙ ap (λ d. word ++ String.◌∷◌ d w) (sym same)))
  | inr miss ↦
      rw (miss, append.cons c (replace b'\'' "'\\''" w) (String.◌∷◌ "'" t))
        (rw miss (fronts-none _)
          ∙ words-quoted (word ++ String.◌∷◌ c "") w t
          ∙ ap (λ r. words Mode.inside r t) (append-snoc word c w))
]

-- A quoted word, and what follows it.
pub quote-append :
    (w t : String)
    → shell_quote w ++ t ≡ String.◌∷◌ "'" (replace b'\'' "'\\''" w ++ String.◌∷◌ "'" t)
unfolding shell_quote
quote-append w t =
    append_assoc "'" (replace b'\'' "'\\''" w ++ "'") t
    ∙ append.cons "'" "" _
    ∙ ap (String.◌∷◌ "'") (
        append.nil _
        ∙ append_assoc (replace b'\'' "'\\''" w) "'" t
        ∙ ap (λ r. replace b'\'' "'\\''" w ++ r)
            (append.cons "'" "" t ∙ ap (String.◌∷◌ "'") (append.nil t)))

-- A piece of the line that a shell reads as one word.
pub record Piece (text word : String) : Type 0 where
  pub reads : (t : String) → words Mode.between "" (text ++ t) ≡ words Mode.inside word t

pub shell_quote-Piece : (w : String) → Piece (shell_quote w) w
unfolding words
shell_quote-Piece w = record {
  reads = λ t.
      ap (words Mode.between "") (quote-append w t)
      ∙ fronts-none _
      ∙ words-quoted "" w t
      ∙ ap (λ r. words Mode.inside r t) (append.nil w);
}

unfoldable pub plain : String → Bool
plain String.[] = true
plain (String.◌∷◌ c s) = is_plain c && plain s

-- A name of a variable for a POSIX shell.
unfoldable pub is_name : String → Bool
unfolding plain
is_name String.[] = false
is_name (String.◌∷◌ c s) = is_letter c && plain s

pub words-plain :
    (word k t : String)
    → plain k ≡ true
    → words Mode.inside word (k ++ t) ≡ words Mode.inside (word ++ k) t
unfolding words plain step
words-plain word String.[] t h = rw (append.nil t, append-nil word) refl
words-plain word (String.◌∷◌ c k) t h =
    let ordinary : is_plain c ≡ true = ground arith in
    let rest : plain k ≡ true = ground arith in
    rw (append.cons c k t) (
      ap (λ (n : Mode × String × Option String). fronts n.2 (words n.0 n.1 (k ++ t)))
        (step-plain c ordinary)
      ∙ fronts-none _
      ∙ words-plain (word ++ String.◌∷◌ c "") k t rest
      ∙ ap (λ r. words Mode.inside r t) (append-snoc word c k))
  where
    step-plain :
        (d : Char)
        → is_plain d ≡ true
        → step Mode.inside word d ≡ (Mode.inside, word ++ String.◌∷◌ d "", none)
    step-plain d p = ground arith
