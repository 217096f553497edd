-- ===== src/Base/Int.antt =====
-- The integers over the native numbers, where the program subtracts without a guard.
use Prim.Native.Nat.{ℕ, ◌-◌}
use blue_waving.Base.Tests.{leb, if◌then◌else◌}

-- `negsuc n` is -(n + 1).
pub data ℤ : Type 0 where
  pos : ℕ → ℤ
  negsuc : ℕ → ℤ

-- a - b
unfoldable pub sub_ℕ : ℕ → ℕ → ℤ
sub_ℕ a b = if leb b a then pos (a - b) else negsuc (b - a - 1)
