-- ===== src/Prelude/Int.antt =====
-- Go's `int` where a value may be negative. A bound on its 64 bits is stated where it matters.
use Prim.Native.Nat.{ℕ}

-- `negsuc n` is -(n + 1).
pub data ℤ : Type 0 where
  pos : ℕ → ℤ
  negsuc : ℕ → ℤ
