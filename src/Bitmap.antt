-- ===== src/Bitmap.antt =====
-- utilities/src/common/bitmap.c and utilities/src/common/atomicbitmap.c: bitmaps in byte arrays.
-- Here: the bytes, one bit of them, and the functions of bitmap.c that read or write one bit. A bit
-- index is not negative: no caller passes another.
pub mod Word
pub mod Scan
pub mod Laws
pub mod Atomic
pub mod Walk
mod Tests
use mcmp.Common.{
  ℕ, ◌-◌, ◌/◌, ◌%◌, ◌^◌, ◌<◌, bit_and, bit_or, Bool, not, List, ◌==◌, length, get_or, set,
  replicate,
}
use mcmp.Bits.{digit, invert}

-- `mcmpbitmap`, a pointer to bytes.
abbrev pub BitMap : Type 0
BitMap = List ℕ

abbrev pub IsBytes : BitMap → Type 0
IsBytes bitmap = (i : ℕ) → get_or bitmap i 0 < 2 ^ 8

-- The bit that `idx` names: of weight `2 ^ (idx % 8)` in byte `idx / 8`.
pub bit_at : BitMap → ℕ → ℕ
bit_at bitmap idx = digit (get_or bitmap (idx / 8) 0) (idx % 8)

-- `mcmpBitmapIsEnabledBit`
unfoldable pub is_enabled_bit : BitMap → ℕ → Bool
is_enabled_bit bitmap idx = not (bit_and (get_or bitmap (idx / 8) 0) (2 ^ (idx % 8)) == 0)

-- `mcmpBitmapIsDisabledBit`
unfoldable pub is_disabled_bit : BitMap → ℕ → Bool
is_disabled_bit bitmap idx = bit_and (get_or bitmap (idx / 8) 0) (2 ^ (idx % 8)) == 0

-- `mcmpBitmapCleanOrder`: `memset(bitmap, 0, len)` on a bitmap of `len` bytes.
unfoldable pub clean_order : ℕ → BitMap
clean_order len = replicate len 0

-- `mcmpBitmapEnableBit`
unfoldable pub enable_bit : BitMap → ℕ → BitMap
enable_bit bitmap idx = set bitmap (idx / 8) (bit_or (get_or bitmap (idx / 8) 0) (2 ^ (idx % 8)))

-- `mcmpBitmapDisableBit`; the mask `~(1 << bitidx)` is cut to the byte by `&=`.
unfoldable pub disable_bit : BitMap → ℕ → BitMap
disable_bit bitmap idx =
    set bitmap (idx / 8) (bit_and (get_or bitmap (idx / 8) 0) (invert 8 (2 ^ (idx % 8))))
