-- ===== src/Server/Ipam/Search.antt =====
-- ipam.rs: the searches `(a..=b).find(|x| !taken.contains(x))` for a third octet and for a host.
use bigtop.Common.{
  ℕ, zero, suc, ◌+◌, ◌≤◌, ◌<◌, ◌≡◌, Bool, true, false, Option, none, some, List, arith, any, eqb,
  if◌then◌else◌, any-values, ◌≢◌, String, HashMap, get, values,
}

-- `taken.contains(x)`
abbrev pub contains : ℕ → List ℕ → Bool
contains x taken = any (λ y. eqb y x) taken

-- The first of the `n` numbers from `start` on that is not taken.
unfoldable pub first_free : ℕ → ℕ → List ℕ → Option ℕ
first_free zero start taken = none
first_free (suc n) start taken =
    let rest = first_free n (start + 1) taken in if contains start taken then rest else some start

-- What the search finds is in the range and not taken.
pub first_free-some :
    (n start : ℕ) (taken : List ℕ) (x : ℕ)
    → first_free n start taken ≡ some x
    → (start ≤ x) × (x < start + n) × (contains x taken ≡ false)
unfolding first_free
first_free-some zero start taken x h = ground arith
first_free-some (suc n) start taken x h = ground (arith, first_free-some n (start + 1) taken x)

-- It fails only if everything in the range is taken.
pub first_free-none :
    (n start : ℕ) (taken : List ℕ) (x : ℕ)
    → first_free n start taken ≡ none
    → start ≤ x
    → x < start + n
    → contains x taken ≡ true
unfolding first_free
first_free-none zero start taken x h lo hi = absurd (omega arith)
first_free-none (suc n) start taken x h lo hi =
    ground (arith, first_free-none n (start + 1) taken x)

-- A number that is not among a map's values is the value of no key.
pub contains-fresh :
    (z : ℕ) (k : String) (m : HashMap ℕ) → contains z (values m) ≡ false → get k m ≢ some z
contains-fresh z k m h g =
    let found : contains z (values m) ≡ true = any-values (λ y. eqb y z) k m z g (ground arith) in
    ground arith
