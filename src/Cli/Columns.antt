-- ===== src/Cli/Columns.antt =====
-- main.rs: what the columns of the tables show, and what they lose.
use Prim.Native.String.{◌++◌}
use text.Mathlib.TextLemmas.{append_assoc}
use bigtop.Common.{
  ℕ, ◌+◌, ◌^◌, ◌≤◌, ◌<◌, ◌≡◌, sym, ap, ◌∙◌, String, arith, inl, inr, Bool-cases, ltb, ltb_iff,
}
use bigtop.Common.Text.{
  chars, chars-append, take_chars, take_chars-append, chars-take_chars, take_chars_all,
}
use bigtop.Common.Hex.{hex, bound, chars-hex, some_digit}
use bigtop.Core.Ids.{Kind, generate}
use bigtop.Core.Types.{Task, to_string}
use bigtop.Server.Scheduler.Services.{show_ip}
use bigtop.Cli.Table.{truncate, ps_row, ps_line, or_dash, show_ℤ}

-- A cell has at most one character more than it is given, and a text that fits stays as it is.
truncate-Fits :
    (s : String) (n : ℕ) → (chars (truncate s n) ≤ n + 1) × (chars s ≤ n → truncate s n ≡ s)
unfolding truncate chars
truncate-Fits s n = elim (Bool-cases (ltb n (chars s))) [
  | inl long ↦ rw long (
    rw (chars-append (take_chars n s) "…") (omega (arith, chars-take_chars n s)),
    λ h. absurd (omega (arith, (ltb_iff n (chars s)).0 long)),
  )
  | inr short ↦ rw short (omega (arith, chars-take_chars n s), λ h. take_chars_all n s h)
]

-- Texts that begin alike and are long are cut alike.
truncate-append :
    (n : ℕ) (s t u : String)
    → n ≤ chars s
    → n < chars (s ++ t)
    → n < chars (s ++ u)
    → truncate (s ++ t) n ≡ truncate (s ++ u) n
unfolding truncate
truncate-append n s t u h a b =
    rw ((ltb_iff n (chars (s ++ t))).1 a, (ltb_iff n (chars (s ++ u))).1 b)
      (ap (λ p. p ++ "…") (take_chars-append n s t h ∙ sym (take_chars-append n s u h)))

-- What stands in front of the counter in the id of a task.
front : ℕ → ℕ → String
front nanos pid = "task" ++ "-" ++ hex nanos ++ "-" ++ hex pid ++ "-"

split : (nanos pid c : ℕ) → (generate Kind.task nanos pid c).0 ≡ front nanos pid ++ hex c
unfolding generate front
split nanos pid c = simp append_assoc

chars-front : (nanos pid : ℕ) → 2 ^ 60 ≤ nanos → 256 ≤ pid → 26 ≤ chars (front nanos pid)
unfolding front chars bound
chars-front nanos pid h k =
    rw
      (
        chars-append "task" ("-" ++ hex nanos ++ "-" ++ hex pid ++ "-"),
        chars-append "-" (hex nanos ++ "-" ++ hex pid ++ "-"),
        chars-append (hex nanos) ("-" ++ hex pid ++ "-"),
        chars-append "-" (hex pid ++ "-"),
        chars-append (hex pid) "-",
      )
      (omega (
        arith,
        chars-hex 15 nanos (omega arith) (omega arith),
        chars-hex 2 pid (omega arith) (omega arith),
      ))

longer : (nanos pid c : ℕ) → 26 ≤ chars (front nanos pid) → 26 < chars (front nanos pid ++ hex c)
unfolding bound
longer nanos pid c h = rw (chars-append (front nanos pid) (hex c)) (omega (arith, some_digit c))

cut :
    (nanos pid c c' : ℕ)
    → 2 ^ 60 ≤ nanos
    → 256 ≤ pid
    → truncate (generate Kind.task nanos pid c).0 26
      ≡ truncate (generate Kind.task nanos pid c').0 26
cut nanos pid c c' h k =
    let long = chars-front nanos pid h k in
    ap (λ s. truncate s 26) (split nanos pid c)
    ∙ truncate-append 26 (front nanos pid) (hex c) (hex c') long (longer nanos pid c long)
        (longer nanos pid c' long)
    ∙ sym (ap (λ s. truncate s 26) (split nanos pid c'))

-- The row that `ps` prints for a task is the same for every task that differs only in the counter of
-- its id, where the id was generated after 2006 (the nanoseconds have sixteen hexadecimal digits) by a
-- process whose id has three hexadecimal digits or more.
pub ps_row-generate :
    (task : Task) (nanos pid c c' : ℕ)
    → 2 ^ 60 ≤ nanos
    → 256 ≤ pid
    → ps_row (record task { id = (generate Kind.task nanos pid c).0 })
      ≡ ps_row (record task { id = (generate Kind.task nanos pid c').0 })
unfolding ps_row
ps_row-generate task nanos pid c c' h k =
    ap
      (λ id.
        ps_line id (truncate task.name 18) (to_string task.state) (or_dash show_ℤ task.exit_code)
          (truncate (or_dash (λ id. id) task.assigned_node) 26)
          (or_dash (λ n. show_ip n.ip) task.network) task.job_id)
      (cut nanos pid c c' h k)
