-- ===== src/Bitmap/Scan.antt =====
-- The scans of bitmap.c and atomicbitmap.c for the next bit that is set or clear. After the first
-- byte both read words of 8, 4 and 2 bytes and then single bytes, the occupied ones as they are and
-- the available ones inverted.
--
-- A scan reads through `memory`, which gives for each byte index the contents of the bitmap when the
-- load at that index is made: the loads of one scan are at different indices, so other threads may
-- write between any two of them. bitmap.c expects no such writes, and its memory is constant.
pub mod Sweep
pub mod Next
pub mod Exact
use mcmp.Common.{
  ℕ, zero, suc, ◌+◌, ◌-◌, ◌*◌, ◌/◌, ◌%◌, ◌^◌, bit_and, bit_or, none, some, ◌==◌, ltb, leb,
  if◌then◌else◌, size_add, length, get_elem?,
}
use mcmp.Bits.{invert, ctz}
use mcmp.Bitmap.{BitMap}
use mcmp.Bitmap.Word.{word_at}

-- A `bitidx_t`, where -1 is `missing`. `fault` is a read out of the memory, and `hung` a loop that
-- has used up its fuel.
pub data Scan : Type 0 where
  found : ℕ → Scan
  missing fault hung : Scan

-- How one of the loops ends: by a `return`, or by its test with the index that the next one takes.
pub data Exit : Type 0 where
  return : Scan → Exit
  next : ℕ → Exit

pub data Sought : Type 0 where
  occupied available : Sought

infixl 5 ◌>>=◌
abbrev pub ◌>>=◌ : Exit → (ℕ → Scan) → Scan
return r >>= f = r
next i >>= f = f i

abbrev pub Memory : Type 0
Memory = ℕ → BitMap

-- `chunk`, or `~chunk` at its `w` bytes.
abbrev pub view : Sought → ℕ → ℕ → ℕ
view occupied w chunk = chunk
view available w chunk = invert (8 * w) chunk

-- `(bitidx_t)(i * 8 + count)`
abbrev pub bit_index : ℕ → ℕ → ℕ
bit_index i count = (i * 8 + count) % 2 ^ 64

module _ (s : Sought) (memory : Memory) (len : ℕ) where
  -- `for (; i + w < len; i += w)`, where the count is of a `bits`-bit operand.
  unfoldable pub words : (w bits : ℕ) → ℕ → ℕ → Exit
  words w bits zero i = return hung
  words w bits (suc fuel) i =
      let rest = words w bits fuel (size_add i w) in
      if ltb (size_add i w) len
      then elim (word_at (memory i) i w) [
        | none ↦ return fault
        | some chunk ↦
            if view s w chunk == 0
            then rest
            else return (found (bit_index i (ctz bits (view s w chunk))))
      ]
      else next i

  -- `for (; i < len; ++i)`
  unfoldable pub bytes : ℕ → ℕ → Scan
  bytes zero i = hung
  bytes (suc fuel) i =
      let rest = bytes fuel (size_add i 1) in
      if ltb i len
      then elim (get_elem? (memory i) i) [
        | none ↦ fault
        | some chunk ↦
            if view s 1 chunk == 0 then rest else found (bit_index i (ctz 32 (view s 1 chunk)))
      ]
      else missing

  -- The four loops in their order. Each passes on the index at which it stops.
  unfoldable pub sweep : ℕ → Scan
  sweep i = do
    j ← words 8 64 (suc len) i
    k ← words 4 32 (suc len) j
    m ← words 2 32 (suc len) k
    bytes (suc len) m

-- `mcmpBitmapNextAvaibleBit`
unfoldable pub next_available_bit : BitMap → ℕ → ℕ → Scan
next_available_bit bitmap offset len =
    let i = offset / 8 in
    let rest = sweep available (λ _. bitmap) len (i + 1) in
    if leb len i then missing else elim (get_elem? bitmap i) [
      | none ↦ fault
      | some b ↦
          let inverted = invert 8 (bit_or b (2 ^ (offset % 8) - 1)) in
          if inverted == 0 then rest else found (bit_index i (ctz 32 inverted))
    ]

-- `mcmpBitmapNextOccupiedBit`
unfoldable pub next_occupied_bit : BitMap → ℕ → ℕ → Scan
next_occupied_bit bitmap offset len =
    let i = offset / 8 in
    let rest = sweep occupied (λ _. bitmap) len (i + 1) in
    if leb len i then missing else elim (get_elem? bitmap i) [
      | none ↦ fault
      | some b ↦
          let chunk = bit_and b (invert 8 (2 ^ (offset % 8) - 1)) in
          if chunk == 0 then rest else found (bit_index i (ctz 32 chunk))
    ]

-- `mcmpAtomicBitmapNextAvaibleBit`
unfoldable pub atomic_next_available_bit : Memory → ℕ → ℕ → Scan
atomic_next_available_bit memory offset len =
    let i = offset / 8 in
    let rest = sweep available memory len (i + 1) in
    if leb len i then missing else elim (get_elem? (memory i) i) [
      | none ↦ fault
      | some chunk ↦
          let inverted = invert 8 (bit_or chunk (2 ^ (offset % 8) - 1)) in
          if inverted == 0 then rest else found (bit_index i (ctz 64 inverted))
    ]

-- `mcmpAtomicBitmapNextOccupiedBit`
unfoldable pub atomic_next_occupied_bit : Memory → ℕ → ℕ → Scan
atomic_next_occupied_bit memory offset len =
    let i = offset / 8 in
    let rest = sweep occupied memory len (i + 1) in
    if leb len i then missing else elim (get_elem? (memory i) i) [
      | none ↦ fault
      | some loaded ↦
          let chunk = bit_and loaded (invert 8 (2 ^ (offset % 8) - 1)) in
          if chunk == 0 then rest else found (bit_index i (ctz 32 chunk))
    ]
