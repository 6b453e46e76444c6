-- ===== src/Common/Int.antt =====
-- The `int` of the C code: a signed number without a width.
use Prim.Native.Nat.{ℕ}

-- `negsuc n` is -(n + 1).
pub data ℤ : Type 0 where
  pos : ℕ → ℤ
  negsuc : ℕ → ℤ
