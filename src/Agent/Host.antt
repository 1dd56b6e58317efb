-- ===== src/Agent/Host.antt =====
-- crates/bigtop-agent/src/lib.rs: what the machine offers. The number of CPUs, the lines of
-- `/proc/meminfo` and the environment are arguments.
use Prim.Native.Char.{code}
use Prim.Native.String.{String}
use bigtop.Common.{
  ℕ, ◌+◌, ◌-◌, ◌*◌, ◌/◌, ◌≡◌, refl, true, false, ◌&&◌, Option, none, some, List, [], ◌∷◌, leb, eqb,
  ◌==◌, if◌then◌else◌, unwrap_or,
}
use bigtop.Core.Resources.{Resources, u64_max}
use bigtop.Server.State.Jobs.{is_whitespace}

-- `line.strip_prefix(prefix)`
unfoldable pub strip_prefix : String → String → Option String
strip_prefix String.[] line = some line
strip_prefix (String.◌∷◌ c prefix) String.[] = none
strip_prefix (String.◌∷◌ c prefix) (String.◌∷◌ d line) =
    let rest = strip_prefix prefix line in if eqb (code c) (code d) then rest else none

-- The text up to its first whitespace.
unfoldable pub up_to_space : String → String
unfolding is_whitespace
up_to_space String.[] = ""
up_to_space (String.◌∷◌ c s) =
    let rest = up_to_space s in if is_whitespace (code c) then "" else String.◌∷◌ c rest

-- `s.split_whitespace().next()`
unfoldable pub first_word : String → Option String
unfolding is_whitespace up_to_space
first_word String.[] = none
first_word (String.◌∷◌ c s) =
    let rest = first_word s in
    if is_whitespace (code c) then rest else some (String.◌∷◌ c (up_to_space s))

-- The digits of `u64::from_str` behind what was read, each one checked for overflow.
unfoldable pub read_digits : ℕ → String → Option ℕ
read_digits acc String.[] = some acc
read_digits acc (String.◌∷◌ c s) =
    let rest = read_digits (acc * 10 + (code c - b'0')) s in
    if leb b'0' (code c) && leb (code c) b'9' && leb (acc * 10 + (code c - b'0')) u64_max
    then rest
    else none

-- `parse::<u64>()`: one sign `+` may stand in front.
unfoldable pub parse_u64 : String → Option ℕ
unfolding read_digits
parse_u64 String.[] = none
parse_u64 (String.◌∷◌ c s) =
    if eqb (code c) b'+' && (if s == "" then false else true)
    then read_digits 0 s
    else read_digits 0 (String.◌∷◌ c s)

-- `a?; b`
infixl 5 ◌>>=◌
abbrev pub ◌>>=◌ : {A B : Type 0} → Option A → (A → Option B) → Option B
none >>= f = none
some a >>= f = f a

-- The closure of `mem_total_mb`.
unfoldable pub total_of_line : String → Option ℕ
unfolding strip_prefix first_word parse_u64
total_of_line line = do
  rest ← strip_prefix "MemTotal:" line
  word ← first_word rest
  kb ← parse_u64 word
  some (kb / 1024)

-- `lines().find_map(..)`
unfoldable pub find_total : List String → Option ℕ
unfolding total_of_line
find_total [] = none
find_total (line ∷ lines) =
    let rest = find_total lines in elim (total_of_line line) [ none ↦ rest | some mb ↦ some mb ]

-- `mem_total_mb`, where the file could be read or not.
unfoldable pub mem_total_mb : Option (List String) → Option ℕ
unfolding find_total
mem_total_mb none = none
mem_total_mb (some lines) = find_total lines

-- `cpus` is `available_parallelism`, if it is known.
unfoldable pub node_resources : Option ℕ → Option (List String) → Resources
unfolding mem_total_mb
node_resources cpus meminfo = record {
  cpu_millis = unwrap_or 1 cpus * 1000;
  mem_mb = unwrap_or 1024 (mem_total_mb meminfo);
}

unfoldable pub local_label : Option String → String
local_label hostname = unwrap_or "localhost" hostname

mem_total_mb_test :
    mem_total_mb (some ("MemFree: 12 kB" ∷ "MemTotal:       16384256 kB" ∷ [])) ≡ some 16000
unfolding mem_total_mb
mem_total_mb_test = refl
