-- ===== src/Agent/Firecracker/Line.antt =====
-- firecracker.rs: the words of the whole line that `shell_join` makes.
use Prim.Native.Char.{Char}
use Prim.Native.String.{◌++◌}
use Prim.Native.String.append
use text.Mathlib.TextLemmas.{append_assoc, append-nil}
use bigtop.Common.{
  ◌≡◌, refl, ap, sym, ◌∙◌, true, none, some, List, [], ◌∷◌, String, arith, map, HashMap, All,
}
use bigtop.Common.Sort.{sort_by}
use bigtop.Common.Distinct.{All-sort_by}
use bigtop.Agent.Shell.{join}
use bigtop.Agent.Firecracker.Cmdline.{shell_quote, shell_join, variables, le_pair}
use bigtop.Agent.Firecracker.Quote.{
  Mode, step, words, fronts, fronts-none, words-quoted, quote-append, Piece, shell_quote-Piece,
  is_letter, is_name, plain, words-plain,
}

abbrev pub equals : Char
equals = "="

words-equals :
    (word s : String) → words Mode.inside word ("=" ++ s) ≡ words Mode.inside (word ++ "=") s
unfolding words step
words-equals word s =
    ap (words Mode.inside word) (append.cons "=" "" s ∙ ap (String.◌∷◌ "=") (append.nil s))
    ∙ fronts-none _

-- A variable's name up to its `=`.
words-name :
    (k s : String)
    → is_name k ≡ true
    → words Mode.between "" (k ++ "=" ++ s) ≡ words Mode.inside (k ++ "=") s
unfolding words step is_name
words-name String.[] s h = absurd (ground arith)
words-name (String.◌∷◌ c k) s h =
    let first : is_letter c ≡ true = ground arith in
    let rest : plain k ≡ true = ground arith in
    rw (append.cons c k ("=" ++ s)) (
      ap (λ (n : Mode × String × _). fronts n.2 (words n.0 n.1 (k ++ "=" ++ s))) (begin c first)
      ∙ fronts-none _
      ∙ words-plain (String.◌∷◌ c "") k ("=" ++ s) rest
      ∙ words-equals (String.◌∷◌ c "" ++ k) s
      ∙ ap (λ r. words Mode.inside (r ++ "=") s)
          (append.cons c "" k ∙ ap (String.◌∷◌ c) (append.nil k)))
  where
    begin :
        (d : Char)
        → is_letter d ≡ true
        → step Mode.between "" d ≡ (Mode.inside, String.◌∷◌ d "", none)
    begin d p = ground (arith, append.nil (String.◌∷◌ d ""))

variable-Piece :
    (key val : String)
    → is_name key ≡ true
    → Piece (key ++ "=" ++ shell_quote val) (key ++ "=" ++ val)
unfolding words step
variable-Piece key val h = record {
  reads = λ t.
      ap (words Mode.between "") (
        append_assoc key ("=" ++ shell_quote val) t
        ∙ ap (λ r. key ++ r) (append_assoc "=" (shell_quote val) t))
      ∙ words-name key (shell_quote val ++ t) h
      ∙ ap (words Mode.inside (key ++ "=")) (quote-append val t)
      ∙ fronts-none _
      ∙ words-quoted (key ++ "=") val t
      ∙ ap (λ r. words Mode.inside r t) (append_assoc key "=" val);
}

-- Texts and the words that they are read as.
data Pieces : List String → List String → Type 0 where
  end : Pieces [] []
  more : {t w : String} {ts ws : List String} → Piece t w → Pieces ts ws → Pieces (t ∷ ts) (w ∷ ws)

words-join : (ts ws : List String) → Pieces ts ws → words Mode.between "" (join " " ts) ≡ some ws
unfolding words step join
words-join _ _ Pieces.end = refl
words-join _ _ (Pieces.more {t} {w} p Pieces.end) =
    ap (words Mode.between "") (sym (append-nil t)) ∙ p.reads ""
words-join _ _ (Pieces.more {t} {w} p (Pieces.more {t = u} {w = v} {ts} {ws} q rest)) =
    p.reads (" " ++ join " " (u ∷ ts))
    ∙ ap (words Mode.inside w) (
        append.cons " " "" (join " " (u ∷ ts))
        ∙ ap (String.◌∷◌ " ") (append.nil (join " " (u ∷ ts))))
    ∙ ap (fronts (some w)) (words-join (u ∷ ts) (v ∷ ws) (Pieces.more q rest))

quotes-Pieces : (args : List String) → Pieces (map shell_quote args) args
quotes-Pieces [] = Pieces.end
quotes-Pieces (arg ∷ args) = Pieces.more (shell_quote-Piece arg) (quotes-Pieces args)

-- `KEY=value`, and the words behind the variables.
abbrev pub assignments : List (String × String) → List String → List String
assignments [] rest = rest
assignments ((key, val) ∷ pairs) rest = (key ++ "=" ++ val) ∷ assignments pairs rest

variables-Pieces :
    (pairs : List (String × String)) (ts ws : List String)
    → All (λ e. is_name e.0 ≡ true) pairs
    → Pieces ts ws
    → Pieces (variables pairs ts) (assignments pairs ws)
unfolding variables
variables-Pieces [] ts ws h p = p
variables-Pieces ((key, val) ∷ pairs) ts ws h p =
    Pieces.more (variable-Piece key val h.0) (variables-Pieces pairs ts ws h.1 p)

-- Where the names of the variables are names for a POSIX shell (letters, digits and underscores, the
-- first one no digit), a shell reads the line that is made of a command, its arguments and its
-- environment as one simple command: the assignments, in the order of the variables, the command and
-- the arguments, each as one word and as it was, whatever characters the values and words have.
-- Outside of quotes the line then has nothing but letters, digits, underscores, `=`, spaces and quotes
-- behind a backslash.
pub words-shell_join :
    (command : String) (args : List String) (env : HashMap String)
    → All (λ e. is_name e.0 ≡ true) env
    → words Mode.between "" (shell_join command args env)
      ≡ some (assignments (sort_by le_pair env) (command ∷ args))
unfolding shell_join
words-shell_join command args env h = words-join _ _ (
    variables-Pieces (sort_by le_pair env) _ _ (All-sort_by le_pair _ env h)
      (Pieces.more (shell_quote-Piece command) (quotes-Pieces args)))
