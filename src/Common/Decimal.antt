-- ===== src/Common/Decimal.antt =====
-- Rust's `Display` for unsigned integers. Twenty digits are enough for every `u64`.
use Prim.Native.Nat.{ℕ, zero, suc, ◌+◌, ◌/◌, ◌%◌}
use Prim.Native.String.{String, slice, ◌++◌}
use mathlib.Core.Bool.{true}
use bigtop.Common.Tests.{if◌then◌else◌, ltb}
use mathlib.Core.Path.{◌≡◌, refl}
use text.Mathlib.Text.{◌==◌}

abbrev digit : ℕ → String
digit n = slice "0123456789" n (n + 1)

unfoldable pub digits : ℕ → ℕ → String
digits zero n = ""
digits (suc fuel) n =
    let front = digits fuel (n / 10) in if ltb n 10 then digit n else front ++ digit (n % 10)

unfoldable pub show : ℕ → String
unfolding digits
show n = digits 20 n

show_test : show 18446744073709551615 == "18446744073709551615" ≡ true
unfolding show
show_test = refl
