-- ===== src/Core/Resources.antt =====
-- crates/bigtop-core/src/types.rs: `Resources`. A `u64` is a number with its range in the
-- statements that need it; `saturating_add` stops at the largest `u64`.
use Prim.Native.Nat.{min}
use bigtop.Common.{ℕ, ◌+◌, ◌≤◌, ◌≡◌, true, Bool, ◌&&◌, arith, leb}

abbrev pub u64_max : ℕ
u64_max = 18446744073709551615

-- `u64::saturating_add`
unfoldable pub saturating_add_u64 : ℕ → ℕ → ℕ
saturating_add_u64 a b = min (a + b) u64_max

pub record Resources : Type 0 where
  pub cpu_millis : ℕ
  pub mem_mb : ℕ

-- `Resources::default()`
abbrev pub default : Resources
default = record { cpu_millis = 0; mem_mb = 0 }

unfoldable pub fits_in : Resources → Resources → Resources → Bool
unfolding saturating_add_u64
fits_in need total used =
    leb (saturating_add_u64 used.cpu_millis need.cpu_millis) total.cpu_millis
    && leb (saturating_add_u64 used.mem_mb need.mem_mb) total.mem_mb

unfoldable pub saturating_add : Resources → Resources → Resources
unfolding saturating_add_u64
saturating_add a b = record {
  cpu_millis = saturating_add_u64 a.cpu_millis b.cpu_millis;
  mem_mb = saturating_add_u64 a.mem_mb b.mem_mb;
}

-- `a` is at most `b` in both dimensions.
pub record Within (a b : Resources) : Type 0 where
  pub cpu : a.cpu_millis ≤ b.cpu_millis
  pub mem : a.mem_mb ≤ b.mem_mb

-- Where a task's resources fit, the accounting behind its placement is within the node's total, in
-- both dimensions, although the addition saturates.
pub saturating_add-Within :
    (need total used : Resources)
    → fits_in need total used ≡ true
    → Within (saturating_add used need) total
unfolding fits_in saturating_add
saturating_add-Within need total used h = ground arith
