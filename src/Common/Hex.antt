-- ===== src/Common/Hex.antt =====
-- Rust's `{:x}` for unsigned integers. Thirty-two digits are enough for every `u128`.
use Prim.Native.Nat.{ℕ, zero, suc, ◌+◌, ◌-◌, ◌*◌, ◌/◌, ◌%◌, ◌^◌, ◌<◌, ◌≤◌}
use Prim.Native.Char.{code}
use Prim.Native.String.{String, slice, ◌++◌}
use Prim.Native.String.append
use mathlib.Core.Path.{◌≡◌, refl, ◌∙◌, ap}
use mathlib.Core.Logic.{inl, inr}
use mathlib.Core.Bool.{Bool, true, false, ◌&&◌, not}
use native.Mathlib.Omega.{arith}
use bigtop.Common.Text.{chars, chars-append}
use bigtop.Common.Tests.{if◌then◌else◌, ltb, ltb_iff, eqb, Bool-cases}

abbrev digit : ℕ → String
digit n = slice "0123456789abcdef" n (n + 1)

unfoldable pub digits : ℕ → ℕ → String
digits zero n = ""
digits (suc fuel) n =
    let front = digits fuel (n / 16) in if ltb n 16 then digit n else front ++ digit (n % 16)

unfoldable pub hex : ℕ → String
unfolding digits
hex n = digits 32 n

nibble : ℕ → ℕ
nibble c = if ltb c 58 then c - 48 else c - 87

-- The number that the digits behind the last dash make, from an initial value.
pub tail_value : ℕ → String → ℕ
tail_value acc String.[] = acc
tail_value acc (String.◌∷◌ c s) =
    tail_value (if eqb (code c) b'-' then 0 else acc * 16 + nibble (code c)) s

pub tail_value-append :
    (acc : ℕ) (s t : String) → tail_value acc (s ++ t) ≡ tail_value (tail_value acc s) t
unfolding tail_value
tail_value-append acc String.[] t = rw (append.nil t) refl
tail_value-append acc (String.◌∷◌ c s) t =
    rw (append.cons c s t)
      (tail_value-append (if eqb (code c) b'-' then 0 else acc * 16 + nibble (code c)) s t)

is_nil : String → Bool
is_nil String.[] = true
is_nil (String.◌∷◌ c s) = false

-- The text is the one digit of this value.
sole : ℕ → String → Bool
sole d String.[] = false
sole d (String.◌∷◌ c s) = is_nil s && (not (eqb (code c) b'-') && eqb (nibble (code c)) d)

tail_value-sole : (acc d : ℕ) (s : String) → sole d s ≡ true → tail_value acc s ≡ acc * 16 + d
unfolding sole tail_value is_nil
tail_value-sole acc d String.[] h = absurd (ground arith)
tail_value-sole acc d (String.◌∷◌ c String.[]) h = ground arith
tail_value-sole acc d (String.◌∷◌ c (String.◌∷◌ e s)) h = absurd (ground arith)

-- The digits up to this one are right.
right_digits : ℕ → Bool
right_digits zero = true
right_digits (suc d) = sole d (digit d) && right_digits d

digit-sole : (d : ℕ) → d < 16 → sole d (digit d) ≡ true
unfolding right_digits sole nibble is_nil
digit-sole d h = go 16 refl h
  where
    go : (n : ℕ) → right_digits n ≡ true → d < n → sole d (digit d) ≡ true
    go zero known lt = absurd (omega arith)
    go (suc n) known lt = elim (Bool-cases (eqb d n)) [
      | inl same ↦ ground arith
      | inr other ↦ ground (arith, go n)
    ]

-- How many digits a number has at least.
chars-sole : (d : ℕ) (s : String) → sole d s ≡ true → chars s ≡ 1
unfolding sole is_nil chars
chars-sole d String.[] h = absurd (ground arith)
chars-sole d (String.◌∷◌ c String.[]) h = refl
chars-sole d (String.◌∷◌ c (String.◌∷◌ e s)) h = absurd (ground arith)

chars-digit : (d : ℕ) → d < 16 → chars (digit d) ≡ 1
chars-digit d h = chars-sole d (digit d) (digit-sole d h)

tail_value-digit : (acc d : ℕ) → d < 16 → tail_value acc (digit d) ≡ acc * 16 + d
tail_value-digit acc d h = tail_value-sole acc d (digit d) (digit-sole d h)

-- What this many digits can hold.
unfoldable pub bound : ℕ → ℕ
bound zero = 1
bound (suc fuel) = 16 * bound fuel

bound-pos : (k : ℕ) → 1 ≤ bound k
unfolding bound
bound-pos zero = omega arith
bound-pos (suc k) = omega (arith, bound-pos k)

tail_value-digits : (fuel n : ℕ) → n < bound fuel → tail_value 0 (digits (suc fuel) n) ≡ n
unfolding digits bound
tail_value-digits zero n h =
    rw ((ltb_iff n 16).1 (omega arith)) (tail_value-digit 0 n (omega arith) ∙ omega arith)
tail_value-digits (suc fuel) n h = elim (Bool-cases (ltb n 16)) [
  | inl small ↦ rw small (tail_value-digit 0 n ((ltb_iff n 16).0 small) ∙ omega arith)
  | inr large ↦ rw large (
      tail_value-append 0 (digits (suc fuel) (n / 16)) (digit (n % 16))
      ∙ tail_value-digit _ (n % 16) (omega arith)
      ∙ omega (arith, tail_value-digits fuel (n / 16) (omega arith)))
]

chars-digits : (k fuel n : ℕ) → k ≤ fuel → bound k ≤ n → k < chars (digits (suc fuel) n)
unfolding digits bound
chars-digits zero fuel n h low = elim (Bool-cases (ltb n 16)) [
  | inl small ↦ rw small (omega (arith, chars-digit n ((ltb_iff n 16).0 small)))
  | inr large ↦
      rw (large, chars-append (digits fuel (n / 16)) (digit (n % 16)))
        (omega (arith, chars-digit (n % 16)))
]
chars-digits (suc k) zero n h low = absurd (omega arith)
chars-digits (suc k) (suc fuel) n h low = elim (Bool-cases (ltb n 16)) [
  | inl small ↦ absurd (omega (arith, (ltb_iff n 16).0 small, bound-pos k))
  | inr large ↦
      rw (large, chars-append (digits (suc fuel) (n / 16)) (digit (n % 16)))
        (omega (arith, chars-digit (n % 16), chars-digits k fuel (n / 16)))
]

pub chars-hex : (k n : ℕ) → k ≤ 31 → bound k ≤ n → k < chars (hex n)
unfolding hex
chars-hex k n h low = chars-digits k 31 n h low

pub some_digit : (n : ℕ) → 1 ≤ chars (hex n)
unfolding hex digits
some_digit n = elim (Bool-cases (ltb n 16)) [
  | inl small ↦ rw small (omega (arith, chars-digit n ((ltb_iff n 16).0 small)))
  | inr large ↦
      rw (large, chars-append (digits 31 (n / 16)) (digit (n % 16)))
        (omega (arith, chars-digit (n % 16)))
]

bound_31 : (n : ℕ) → n < 2 ^ 64 → n < bound 31
unfolding bound
bound_31 n h = omega arith

tail_value-dash : (acc : ℕ) → tail_value acc "-" ≡ 0
unfolding tail_value
tail_value-dash acc = refl

-- The value behind the dash is the number, for a `u64`.
pub tail_value-hex : (acc n : ℕ) → n < 2 ^ 64 → tail_value acc ("-" ++ hex n) ≡ n
unfolding hex
tail_value-hex acc n h =
    tail_value-append acc "-" (digits 32 n)
    ∙ ap (λ a. tail_value a (digits 32 n)) (tail_value-dash acc)
    ∙ tail_value-digits 31 n (bound_31 n h)
