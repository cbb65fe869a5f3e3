-- ===== src/Base/Int.antt =====
-- The signed numbers of C, as far as the code tells them apart. `negsuc n` is -(n + 1).
use Prim.Native.Nat.{ℕ}

pub data ℤ : Type 0 where
  pos : ℕ → ℤ
  negsuc : ℕ → ℤ
