-- ===== src/Bitmap/Tests.antt =====
-- Runs of the bitmap functions, and the theorems at concrete bitmaps.
use mcmp.Common.{ℕ, ◌+◌, ◌≤◌, ◌≡◌, refl, List, [], ◌∷◌, arith, ◌==◌, if◌then◌else◌}
use mcmp.Bits.{ctz}
use mcmp.Status.{success, alrop, invop}
use mcmp.Bitmap.{BitMap, IsBytes, bit_at}
use mcmp.Bitmap.Word.{word_at}
use mcmp.Bitmap.Scan.{
  found, missing, occupied, available, Memory, words, bytes, sweep, next_available_bit,
  next_occupied_bit, atomic_next_available_bit, atomic_next_occupied_bit,
}
use mcmp.Bitmap.Scan.Sweep.{IsFirst, IsReadable}
use mcmp.Bitmap.Scan.Next.{atomic_next_bits-IsFirst}
use mcmp.Bitmap.Scan.Exact.{IsNextBit, IsStored, next_bits-IsNextBit}
use mcmp.Bitmap.Atomic.{Exchange, NobodyClears, try_enable_bit, try_disable_bit, wins, wins-le_one}

-- 16 bytes: bits 0 to 7 are set, then bit 98 alone.
abbrev marks : BitMap
marks = 0xff ∷ 0 ∷ 0 ∷ 0 ∷ 0 ∷ 0 ∷ 0 ∷ 0 ∷ 0 ∷ 0 ∷ 0 ∷ 0 ∷ 0x04 ∷ 0 ∷ 0 ∷ 0 ∷ []

-- The same after another thread has set bit 72.
abbrev more_marks : BitMap
more_marks = 0xff ∷ 0 ∷ 0 ∷ 0 ∷ 0 ∷ 0 ∷ 0 ∷ 0 ∷ 0 ∷ 0x01 ∷ 0 ∷ 0 ∷ 0x04 ∷ 0 ∷ 0 ∷ 0 ∷ []

-- The first byte is loaded from `marks`, the later ones from `more_marks`.
abbrev written_to : Memory
written_to i = if i == 0 then marks else more_marks

marks-IsBytes : IsBytes marks
marks-IsBytes = grind arith

more_marks-IsBytes : IsBytes more_marks
more_marks-IsBytes = grind arith

marks-IsStored : IsStored marks 16
marks-IsStored = record { holds_bytes = marks-IsBytes; holds_len = omega arith; fits = omega arith }

written_to-IsBytes : (i : ℕ) → IsBytes (written_to i)
written_to-IsBytes i = λ j. ground (arith, marks-IsBytes j, more_marks-IsBytes j)

written_to-IsReadable : IsReadable written_to 16
written_to-IsReadable = record {
  holds_bytes = written_to-IsBytes;
  holds_len = λ i. ground arith;
  fits = omega arith;
}

scans :
    (next_occupied_bit marks 0 16 ≡ found 0)
    × (next_occupied_bit marks 8 16 ≡ found 98)
    × (next_occupied_bit marks 99 16 ≡ missing)
    × (next_available_bit marks 0 16 ≡ found 8)
    × (next_available_bit marks 3 1 ≡ missing)
    × (next_available_bit marks 98 16 ≡ found 99)
    × (next_available_bit marks 128 16 ≡ missing)
    × (atomic_next_occupied_bit written_to 8 16 ≡ found 72)
unfolding next_occupied_bit next_available_bit atomic_next_occupied_bit sweep words bytes word_at
    ctz
scans = (refl, refl, refl, refl, refl, refl, refl, refl)

-- Bit 8 is set by another thread, and then bit 9 too.
abbrev with_eight : BitMap
with_eight = 0xff ∷ 1 ∷ 0 ∷ []

abbrev with_nine : BitMap
with_nine = 0xff ∷ 3 ∷ 4 ∷ []

abbrev attempts_on_nine : List Exchange
attempts_on_nine =
    record { loaded = marks; current = with_eight }
    ∷ record { loaded = with_eight; current = with_eight }
    ∷ record { loaded = with_eight; current = with_nine }
    ∷ []

with_eight-IsBytes : IsBytes with_eight
with_eight-IsBytes = grind arith

attempts_on_nine-NobodyClears : NobodyClears 9 marks attempts_on_nine
unfolding try_enable_bit bit_at
attempts_on_nine-NobodyClears = (
  marks-IsBytes,
  omega arith,
  omega arith,
  (
    with_eight-IsBytes,
    omega arith,
    omega arith,
    (with_eight-IsBytes, omega arith, omega arith, tt),
  ),
)

attempts :
    ((try_enable_bit marks marks 9).0 ≡ success)
    × ((try_enable_bit marks marks 98).0 ≡ alrop)
    × ((try_enable_bit marks more_marks 73).0 ≡ invop)
    × ((try_disable_bit marks marks 9).0 ≡ success)
    × (wins 9 attempts_on_nine ≡ 1)
unfolding try_enable_bit try_disable_bit wins
attempts = (refl, refl, refl, refl, refl)

atomic_next_bits-IsFirst_example :
    IsFirst occupied written_to 8 128 (atomic_next_occupied_bit written_to 8 16)
    × IsFirst available written_to 8 128 (atomic_next_available_bit written_to 8 16)
atomic_next_bits-IsFirst_example = atomic_next_bits-IsFirst written_to 8 16 written_to-IsReadable

next_bits-IsNextBit_example :
    IsNextBit 1 marks 8 128 (next_occupied_bit marks 8 16)
    × IsNextBit 0 marks 8 128 (next_available_bit marks 8 16)
next_bits-IsNextBit_example = next_bits-IsNextBit marks 8 16 marks-IsStored

-- The first attempt misses a write to the same byte, the second one wins, and the third one finds the
-- bit set after another write.
wins-le_one_example : bit_at marks 9 + wins 9 attempts_on_nine ≤ 1
wins-le_one_example = wins-le_one 9 attempts_on_nine marks attempts_on_nine-NobodyClears
