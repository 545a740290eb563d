-- ===== src/Prelude/Int.antt =====
-- The signed integers of the library's shape over the native ℕ.
use rust_litecoin.Prelude.{ℕ}

pub data ℤ : Type 0 where
  pos : ℕ → ℤ
  -- `negsuc n` is -(n + 1).
  negsuc : ℕ → ℤ
