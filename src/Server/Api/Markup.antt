-- ===== src/Server/Api/Markup.antt =====
-- api.rs: no text of the state can add markup to the status page.
use Prim.Native.Char.{Char, code, len_utf8}
use Prim.Native.String.{slice, fits}
use Prim.Native.String.slice
use bigtop.Common.{
  ℕ, suc, zero, ◌+◌, ◌*◌, ◌-◌, Ordering, ◌/◌, ◌%◌, ◌≡◌, refl, Bool, true, false, Option, none, some,
  List, [], ◌∷◌, String, eqb, arith, length, Bool-cases, inl, inr, ltb,
}
use bigtop.Common.Decimal.{show, digits}
use bigtop.Core.Types.{Task, NodeInfo, to_string, TaskState}
use bigtop.Core.Network.{Ipv4Addr, NetworkAssignment}
use bigtop.Server.Scheduler.Services.{show_ip}
use bigtop.Server.Api.Html.{
  esc, cell, row, rows, yes_no, underlay, quoted, address, node_row, task_row,
}
use bigtop.Server.Api.Escape.{count, count-append, count-esc}

-- Opening angle brackets.
abbrev pub brackets : String → ℕ
brackets = count b'<'

pub brackets-cell : (t : String) → brackets (cell t) ≡ brackets t + 2
unfolding count
brackets-cell t = simp count-append (omega arith)

pub brackets-row : (t : String) → brackets (row t) ≡ brackets t + 2
unfolding count
brackets-row t = simp count-append (omega arith)

pub brackets-esc : (t : String) → brackets (esc t) ≡ 0
brackets-esc t = count-esc b'<' t (inl refl)

brackets-quoted : (o : Option String) → brackets (quoted o) ≡ 0
unfolding count
brackets-quoted none = refl
brackets-quoted (some t) = brackets-esc t

brackets-to_string : (state : TaskState) → brackets (to_string state) ≡ 0
unfolding count to_string
brackets-to_string TaskState.pending = refl
brackets-to_string TaskState.assigned = refl
brackets-to_string TaskState.running = refl
brackets-to_string TaskState.succeeded = refl
brackets-to_string TaskState.failed = refl

brackets-tail :
    (c : Char) (s : String)
    → brackets (String.◌∷◌ c s) ≡ 0
    → (eqb (code c) b'<' ≡ false) × (brackets s ≡ 0)
unfolding count
brackets-tail c s h = elim (Bool-cases (eqb (code c) b'<')) [
  | inl here ↦ absurd (ground arith)
  | inr there ↦ (there, ground arith)
]

brackets-fits :
    (o : Ordering) (c : Char) (s : String)
    → eqb (code c) b'<' ≡ false
    → brackets s ≡ 0
    → brackets (fits o c s) ≡ 0
unfolding count
brackets-fits Ordering.lt c s n h = rw n h
brackets-fits Ordering.eq c s n h = rw n h
brackets-fits Ordering.gt c s n h = refl

-- A piece of a text without brackets has none.
brackets-slice : (s : String) (a b : ℕ) → brackets s ≡ 0 → brackets (slice s a b) ≡ 0
unfolding count
brackets-slice String.[] a b h = rw (slice.nil a b) refl
brackets-slice (String.◌∷◌ c s) zero b h =
    let t = brackets-tail c s h in
    rw (slice.cons-zero c s b)
      (brackets-fits _ c _ t.0 (brackets-slice s zero (b - len_utf8 c) t.1))
brackets-slice (String.◌∷◌ c s) (suc a) b h =
    rw (slice.cons-suc c s a b)
      (brackets-slice s (suc a - len_utf8 c) (b - len_utf8 c) (brackets-tail c s h).1)

brackets-digits : (fuel n : ℕ) → brackets (digits fuel n) ≡ 0
unfolding digits count
brackets-digits zero n = refl
brackets-digits (suc fuel) n = elim (Bool-cases (ltb n 10)) [
  | inl small ↦ rw small (brackets-slice "0123456789" n (n + 1) refl)
  | inr large ↦ rw large (
      simp
        (
          count-append,
          brackets-digits fuel (n / 10),
          brackets-slice "0123456789" (n % 10) (n % 10 + 1) refl,
        )
        (omega arith))
]

pub brackets-show : (n : ℕ) → brackets (show n) ≡ 0
unfolding show
brackets-show n = brackets-digits 20 n

pub brackets-show_ip : (ip : Ipv4Addr) → brackets (show_ip ip) ≡ 0
unfolding show_ip count
brackets-show_ip ip = simp (count-append, brackets-show) (omega arith)

brackets-address : (o : Option NetworkAssignment) → brackets (address o) ≡ 0
unfolding count
brackets-address none = refl
brackets-address (some network) = brackets-show_ip network.ip

brackets-underlay : (o : Option Ipv4Addr) → brackets (underlay o) ≡ 0
unfolding count
brackets-underlay none = refl
brackets-underlay (some ip) = brackets-show_ip ip

brackets-yes_no : (alive : Bool) → brackets (yes_no alive) ≡ 0
unfolding count
brackets-yes_no true = refl
brackets-yes_no false = refl

pub brackets-task_row : (task : Task) → brackets (task_row task) ≡ 14
unfolding count task_row
brackets-task_row task =
    simp
      (
        brackets-row, brackets-cell, count-append, brackets-esc, brackets-to_string,
        brackets-quoted, brackets-address,
      )
      (omega arith)

pub brackets-node_row : (now : ℕ) (node : NodeInfo) → brackets (node_row now node) ≡ 16
unfolding count node_row
brackets-node_row now node =
    simp
      (
        brackets-row, brackets-cell, count-append, brackets-esc, brackets-underlay, brackets-yes_no,
        brackets-show,
      )
      (omega arith)

pub brackets-rows :
    {A : Type 0} (f : A → String) (k : ℕ) (xs : List A)
    → ((x : A) → brackets (f x) ≡ k)
    → brackets (rows f xs) ≡ k * length xs
unfolding count
brackets-rows f k [] h = ground arith
brackets-rows f k (x ∷ xs) h = simp (count-append, h, brackets-rows f k xs h) (ground arith)
