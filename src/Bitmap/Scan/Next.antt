-- ===== src/Bitmap/Scan/Next.antt =====
-- `mcmpBitmapNextAvaibleBit`, `mcmpBitmapNextOccupiedBit` and their atomic versions find the first
-- bit from the offset on.
use Prim.Native.Nat.{min, max}
use native.Mathlib.Nat.{pow-le-pow_right}
use mcmp.Common.{
  ℕ, ◌+◌, ◌-◌, ◌*◌, ◌/◌, ◌%◌, ◌^◌, ◌≤◌, ◌<◌, bit_and, bit_or, ◌≡◌, refl, some, inl, inr, arith,
  ◌==◌, leb, Bool-cases, if◌then◌else◌, get_or, get_elem?, get_elem?-eq-get_or,
}
use mcmp.Bits.{
  digit, digit-le, digit-bit_and, digit-bit_or, digit-invert, digit-mask_below, digit-mask_above,
  invert, ctz, bit_or-lt, bit_and-lt,
}
use mcmp.Bitmap.{BitMap, IsBytes}
use mcmp.Bitmap.Word.{bit_at-byte}
use mcmp.Bitmap.Scan.{
  found, missing, Sought, occupied, available, Memory, bit_index, sweep, next_available_bit,
  next_occupied_bit, atomic_next_available_bit, atomic_next_occupied_bit,
}
use mcmp.Bitmap.Scan.Sweep.{
  IsFirst, IsReadable, IsFirst-append, Looks, Looks-Passed, Looks-IsFirst, sweep-IsFirst,
}

mask-lt : (r : ℕ) → r < 8 → 2 ^ r - 1 < 2 ^ 8
mask-lt r h = omega (arith, pow-le-pow_right {n = 2} (omega arith) {i = r} {j = 8} (omega arith))

-- The first byte, its bits before the offset masked out.
occupied-Looks :
    (memory : Memory) (i r : ℕ)
    → r < 8
    → IsBytes (memory i)
    → Looks occupied memory i 1 r (bit_and (get_or (memory i) i 0) (invert 8 (2 ^ r - 1)))
occupied-Looks memory i r h bytes = record {
  small = bit_and-lt 8 byte _ (bytes i);
  masked = λ p q. omega (arith, at_digit p (omega arith), digit-mask_below r p q);
  yes_bit = λ p a b e. omega (arith, bit_at-byte (memory i) i p b, at_digit p b, digit-le byte p);
  no_bit = λ p a b e.
      omega (
        arith,
        bit_at-byte (memory i) i p b,
        at_digit p b,
        digit-mask_above r p a,
        digit-le byte p,
      );
}
  where
    byte : ℕ
    byte = get_or (memory i) i 0

    at_digit :
        (p : ℕ)
        → p < 8
        → digit (bit_and byte (invert 8 (2 ^ r - 1))) p
          ≡ min (digit byte p) (1 - digit (2 ^ r - 1) p)
    at_digit p b = rw (digit-bit_and, digit-invert 8 (2 ^ r - 1) p (mask-lt r h) b)

available-Looks :
    (memory : Memory) (i r : ℕ)
    → r < 8
    → IsBytes (memory i)
    → Looks available memory i 1 r (invert 8 (bit_or (get_or (memory i) i 0) (2 ^ r - 1)))
available-Looks memory i r h bytes = record {
  small = omega arith;
  masked = λ p q. omega (arith, at_digit p (omega arith), digit-mask_below r p q);
  yes_bit = λ p a b e. omega (arith, bit_at-byte (memory i) i p b, at_digit p b, digit-le byte p);
  no_bit = λ p a b e.
      omega (
        arith,
        bit_at-byte (memory i) i p b,
        at_digit p b,
        digit-mask_above r p a,
        digit-le byte p,
      );
}
  where
    byte : ℕ
    byte = get_or (memory i) i 0

    at_digit :
        (p : ℕ)
        → p < 8
        → digit (invert 8 (bit_or byte (2 ^ r - 1))) p
          ≡ 1 - max (digit byte p) (digit (2 ^ r - 1) p)
    at_digit p b = rw (
      digit-invert 8 (bit_or byte (2 ^ r - 1)) p
          (bit_or-lt 8 byte (2 ^ r - 1) (bytes i) (mask-lt r h)) b,
      digit-bit_or,
    )

-- The first byte and the loops after it.
head-IsFirst :
    (s : Sought) (memory : Memory) (offset len bits v : ℕ)
    → IsReadable memory len
    → offset / 8 < len
    → 8 ≤ bits
    → Looks s memory (offset / 8) 1 (offset % 8) v
    → IsFirst s memory offset (8 * len) (
        if v == 0
        then sweep s memory len (offset / 8 + 1)
        else found (bit_index (offset / 8) (ctz bits v)))
head-IsFirst s memory offset len bits v ok below wide looks = elim (Bool-cases (v == 0)) [
  | inl z ↦ rw z (
      IsFirst-append s memory offset (8 * (offset / 8 + 1)) (8 * len) _ (omega arith)
        (Looks-Passed s memory ok offset _ (offset / 8) 1 (offset % 8) v (omega arith) refl looks
          (ground arith))
        (sweep-IsFirst s memory len ok (offset / 8 + 1) (omega arith)))
  | inr nz ↦ rw nz (
      Looks-IsFirst s memory ok offset bits (offset / 8) 1 (offset % 8) v (omega arith) looks wide
        (omega arith) (λ e. ground arith))
]

-- Past the end there is nothing to find.
end-IsFirst :
    (s : Sought) (memory : Memory) (offset len : ℕ)
    → len ≤ offset / 8
    → IsFirst s memory offset (8 * len) missing
end-IsFirst s memory offset len h j a b = absurd (omega arith)

head_byte :
    (memory : Memory) (offset len : ℕ)
    → IsReadable memory len
    → offset / 8 < len
    → get_elem? (memory (offset / 8)) (offset / 8)
      ≡ some (get_or (memory (offset / 8)) (offset / 8) 0)
head_byte memory offset len ok below =
    get_elem?-eq-get_or (memory (offset / 8)) (offset / 8) 0
      (omega (arith, ok.holds_len (offset / 8)))

module _ (memory : Memory) (offset len : ℕ) (ok : IsReadable memory len) where
  pub atomic_next_occupied_bit-IsFirst :
      IsFirst occupied memory offset (8 * len) (atomic_next_occupied_bit memory offset len)
  unfolding atomic_next_occupied_bit
  atomic_next_occupied_bit-IsFirst = elim (Bool-cases (leb len (offset / 8))) [
    | inl past ↦ rw past (end-IsFirst occupied memory offset len (ground arith))
    | inr more ↦
        let below : offset / 8 < len = ground arith in
        rw (more, head_byte memory offset len ok below)
          (head-IsFirst occupied memory offset len 32 _ ok below (omega arith) (
            occupied-Looks memory (offset / 8) (offset % 8) (omega arith)
              (ok.holds_bytes (offset / 8))))
  ]

  pub atomic_next_available_bit-IsFirst :
      IsFirst available memory offset (8 * len) (atomic_next_available_bit memory offset len)
  unfolding atomic_next_available_bit
  atomic_next_available_bit-IsFirst = elim (Bool-cases (leb len (offset / 8))) [
    | inl past ↦ rw past (end-IsFirst available memory offset len (ground arith))
    | inr more ↦
        let below : offset / 8 < len = ground arith in
        rw (more, head_byte memory offset len ok below)
          (head-IsFirst available memory offset len 64 _ ok below (omega arith) (
            available-Looks memory (offset / 8) (offset % 8) (omega arith)
              (ok.holds_bytes (offset / 8))))
  ]

  -- Whatever other threads write to the bitmap between the loads of one scan,
  -- `mcmpAtomicBitmapNextOccupiedBit` and `mcmpAtomicBitmapNextAvaibleBit` end without reading out of
  -- the bitmap. If the first returns a bit, that is at least `offset` and below `8 * len`, was set at
  -- some load of the scan, and each bit from `offset` up to it was clear at some load; if it returns
  -- -1, each bit from `offset` on was clear at some load. The same holds of the second with "set" and
  -- "clear" exchanged. The bitmap is of bytes and at least `len` bytes long, with `len` below 2 ^ 60.
  pub atomic_next_bits-IsFirst :
      IsFirst occupied memory offset (8 * len) (atomic_next_occupied_bit memory offset len)
      × IsFirst available memory offset (8 * len) (atomic_next_available_bit memory offset len)
  atomic_next_bits-IsFirst = (atomic_next_occupied_bit-IsFirst, atomic_next_available_bit-IsFirst)

module _ (bitmap : BitMap) (offset len : ℕ) (ok : IsReadable (λ _. bitmap) len) where
  pub next_occupied_bit-IsFirst :
      IsFirst occupied (λ _. bitmap) offset (8 * len) (next_occupied_bit bitmap offset len)
  unfolding next_occupied_bit
  next_occupied_bit-IsFirst = elim (Bool-cases (leb len (offset / 8))) [
    | inl past ↦ rw past (end-IsFirst occupied (λ _. bitmap) offset len (ground arith))
    | inr more ↦
        let below : offset / 8 < len = ground arith in
        rw (more, head_byte (λ _. bitmap) offset len ok below)
          (head-IsFirst occupied (λ _. bitmap) offset len 32 _ ok below (omega arith)
            (occupied-Looks (λ _. bitmap) (offset / 8) (offset % 8) (omega arith)
              (ok.holds_bytes (offset / 8))))
  ]

  pub next_available_bit-IsFirst :
      IsFirst available (λ _. bitmap) offset (8 * len) (next_available_bit bitmap offset len)
  unfolding next_available_bit
  next_available_bit-IsFirst = elim (Bool-cases (leb len (offset / 8))) [
    | inl past ↦ rw past (end-IsFirst available (λ _. bitmap) offset len (ground arith))
    | inr more ↦
        let below : offset / 8 < len = ground arith in
        rw (more, head_byte (λ _. bitmap) offset len ok below)
          (head-IsFirst available (λ _. bitmap) offset len 32 _ ok below (omega arith)
            (available-Looks (λ _. bitmap) (offset / 8) (offset % 8) (omega arith)
              (ok.holds_bytes (offset / 8))))
  ]
