-- ===== src/Common/Ints.antt =====
-- Signed integers of C, over the native numbers.
use Prim.Native.Nat.{ℕ, ◌-◌, ◌%◌, ◌^◌}

pub data ℤ : Type 0 where
  pos : ℕ → ℤ
  negsuc : ℕ → ℤ

-- A signed 64-bit integer, converted to `size_t`.
abbrev pub as_size : ℤ → ℕ
as_size (pos n) = n % 2 ^ 64
as_size (negsuc n) = (2 ^ 64 - 1 - n) % 2 ^ 64
