-- ===== src/Common/Text.antt =====
-- Rust's `str::replace` of a character, `Path::join`, and texts by their characters.
use Prim.Native.Nat.{ℕ, zero, suc, ◌+◌, ◌≤◌}
use Prim.Native.Char.{code}
use Prim.Native.String.{String, ◌++◌}
use Prim.Native.String.append
use mathlib.Core.Path.{◌≡◌, refl, ap, sym, ◌∙◌}
use mathlib.Core.Logic.{inl, inr}
use mathlib.Core.Bool.{Bool, false, ◌||◌, ◌&&◌}
use native.Mathlib.Omega.{arith}
use text.Mathlib.Text.{◌==◌, starts_with}
use text.Mathlib.TextLemmas.{append_assoc}
use bigtop.Common.Tests.{eqb, if◌then◌else◌, Bool-cases}

-- `input.replace(c, with)`, where `c` is the character of this number.
unfoldable pub replace : ℕ → String → String → String
replace c with String.[] = ""
replace c with (String.◌∷◌ d s) =
    let rest = replace c with s in if eqb (code d) c then with ++ rest else String.◌∷◌ d rest

pub replace-append :
    (c : ℕ) (with s t : String) → replace c with (s ++ t) ≡ replace c with s ++ replace c with t
unfolding replace
replace-append c with String.[] t = rw (append.nil t, append.nil (replace c with t)) refl
replace-append c with (String.◌∷◌ d s) t = elim (Bool-cases (eqb (code d) c)) [
  | inl hit ↦
      rw (append.cons d s t, hit)
        (ap (λ r. with ++ r) (replace-append c with s t)
          ∙ sym (append_assoc with (replace c with s) (replace c with t)))
  | inr miss ↦
      rw (append.cons d s t, miss)
        (ap (String.◌∷◌ d) (replace-append c with s t)
          ∙ sym (append.cons d (replace c with s) (replace c with t)))
]

ends_with_slash : String → Bool
ends_with_slash String.[] = false
ends_with_slash (String.◌∷◌ c s) = (s == "") && eqb (code c) b'/' || ends_with_slash s

-- `Path::join`: an absolute path replaces the one it is joined to.
unfoldable pub path_join : String → String → String
unfolding ends_with_slash
path_join base path =
    if starts_with path "/"
    then path
    else (if (base == "") || ends_with_slash base then base ++ path else base ++ "/" ++ path)

-- `s.chars().count()`
unfoldable pub chars : String → ℕ
chars String.[] = 0
chars (String.◌∷◌ c s) = suc (chars s)

-- `s.chars().take(n)`
unfoldable pub take_chars : ℕ → String → String
take_chars zero s = ""
take_chars (suc n) String.[] = ""
take_chars (suc n) (String.◌∷◌ c s) = String.◌∷◌ c (take_chars n s)

pub chars-append : (s t : String) → chars (s ++ t) ≡ chars s + chars t
unfolding chars
chars-append String.[] t = rw (append.nil t) (omega arith)
chars-append (String.◌∷◌ c s) t = rw (append.cons c s t) (omega (arith, chars-append s t))

-- What stands behind the characters that are taken does not matter.
pub take_chars-append :
    (n : ℕ) (s t : String) → n ≤ chars s → take_chars n (s ++ t) ≡ take_chars n s
unfolding chars take_chars
take_chars-append zero s t h = refl
take_chars-append (suc n) String.[] t h = absurd (omega arith)
take_chars-append (suc n) (String.◌∷◌ c s) t h =
    rw (append.cons c s t) (ap (String.◌∷◌ c) (take_chars-append n s t (omega arith)))

pub chars-take_chars : (n : ℕ) (s : String) → chars (take_chars n s) ≤ n
unfolding chars take_chars
chars-take_chars zero s = omega arith
chars-take_chars (suc n) String.[] = omega arith
chars-take_chars (suc n) (String.◌∷◌ c s) = omega (arith, chars-take_chars n s)

pub take_chars_all : (n : ℕ) (s : String) → chars s ≤ n → take_chars n s ≡ s
unfolding chars take_chars
take_chars_all zero String.[] h = refl
take_chars_all zero (String.◌∷◌ c s) h = absurd (omega arith)
take_chars_all (suc n) String.[] h = refl
take_chars_all (suc n) (String.◌∷◌ c s) h = ap (String.◌∷◌ c) (take_chars_all n s (omega arith))
