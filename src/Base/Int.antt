-- ===== src/Base/Int.antt =====
-- Go's int on a 64-bit machine: integers, and the conversion of a uint64.
use Prim.Native.Nat.{ℕ, ◌-◌, ◌^◌}
use web.Base.Tests.{ltb, if◌then◌else◌}

-- `negsuc n` is -(n + 1).
pub data ℤ : Type 0 where
  pos : ℕ → ℤ
  negsuc : ℕ → ℤ

-- `int(x)`, which is negative from 2 ^ 63 on.
abbrev pub int_of : ℕ → ℤ
int_of x = if ltb x (2 ^ 63) then pos x else negsuc (2 ^ 64 - x - 1)
