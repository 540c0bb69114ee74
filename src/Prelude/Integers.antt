-- ===== src/Prelude/Integers.antt =====
-- Signed numbers over the native ones; `negsuc n` is `-(n + 1)`.
use Prim.Native.Nat.{ℕ}

pub data ℤ : Type 0 where
  pos negsuc : ℕ → ℤ
