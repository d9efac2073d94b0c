-- ===== src/Prelude/Integers.antt =====
-- The integers, under the library's names, over the native numbers.
use Prim.Native.Nat.{ℕ}

pub data ℤ : Type 0 where
  pos : ℕ → ℤ
  negsuc : ℕ → ℤ
