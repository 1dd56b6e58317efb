-- ===== src/Agent/Firecracker/Sizes.antt =====
-- firecracker.rs: the numbers that a microVM is configured with.
use bigtop.Common.{ℕ, ◌*◌, ◌-◌, ◌^◌, ◌≤◌, ◌<◌, ◌≡◌, ◌⊎◌, arith}
use bigtop.Agent.Firecracker.{vcpu_for}

-- The CPUs are enough for what the task asks for, unless there are as many as there can be.
record Sized (cpu_millis vm_vcpu vcpu : ℕ) : Type 0 where
  pub positive : 1 ≤ vcpu
  pub small : vcpu < 2 ^ 32
  pub asked : vm_vcpu ≤ vcpu
  pub enough : (cpu_millis ≤ 1000 * vcpu) ⊎ (vcpu ≡ 2 ^ 32 - 1)

-- For a `u64` of CPU shares and a `u32` of CPUs, the microVM gets at least one CPU, at least as many
-- as it asks for, a number that fits into a `u32`, and enough for the shares, unless it is the
-- largest `u32`.
vcpu_for-Sized :
    (cpu_millis vm_vcpu : ℕ)
    → cpu_millis < 2 ^ 64
    → vm_vcpu < 2 ^ 32
    → Sized cpu_millis vm_vcpu (vcpu_for cpu_millis vm_vcpu)
unfolding vcpu_for
vcpu_for-Sized cpu_millis vm_vcpu h k = record {
  positive = ground arith;
  small = ground arith;
  asked = ground arith;
  enough = ground arith;
}
