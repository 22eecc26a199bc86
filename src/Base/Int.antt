-- ===== src/Base/Int.antt =====
-- Signed integers over the native numbers, and the two's complement reading of a word.
use gflgo.Base.{ℕ}

-- `negsuc n` is -(n + 1).
pub data ℤ : Type 0 where
  pos : ℕ → ℤ
  negsuc : ℕ → ℤ
