-- ===== src/Bitmap/Scan/Exact.antt =====
-- The scans of a bitmap that nobody writes to: exactly the first bit, and the same from both files.
use mcmp.Common.{
  ℕ, ◌*◌, ◌^◌, ◌≤◌, ◌<◌, ◌≡◌, ◌≢◌, refl, ap, inl, inr, arith, ltb, ltb→lt, Bool-cases, length,
}
use mcmp.Bitmap.{BitMap, IsBytes, bit_at}
use mcmp.Bitmap.Scan.{
  Scan, found, missing, fault, hung, Sought, occupied, available, next_available_bit,
  next_occupied_bit, atomic_next_available_bit, atomic_next_occupied_bit,
}
use mcmp.Bitmap.Scan.Sweep.{wanted, IsFirst, IsReadable}
use mcmp.Bitmap.Scan.Next.{
  next_available_bit-IsFirst, next_occupied_bit-IsFirst, atomic_next_available_bit-IsFirst,
  atomic_next_occupied_bit-IsFirst,
}

-- `r` is the first bit of value `v` from `lo` on and below `hi`, or -1 where there is none.
abbrev pub IsNextBit : ℕ → BitMap → ℕ → ℕ → Scan → Type 0
IsNextBit v bitmap lo hi (found j) =
    (lo ≤ j) × (j < hi) × (bit_at bitmap j ≡ v) × ((k : ℕ) → lo ≤ k → k < j → bit_at bitmap k ≢ v)
IsNextBit v bitmap lo hi missing = (k : ℕ) → lo ≤ k → k < hi → bit_at bitmap k ≢ v
IsNextBit v bitmap lo hi fault = ⊥
IsNextBit v bitmap lo hi hung = ⊥

-- A bitmap of bytes that holds the `len` bytes which the scan is told of.
pub record IsStored (bitmap : BitMap) (len : ℕ) : Type 0 where
  pub holds_bytes : IsBytes bitmap
  pub holds_len : len ≤ length bitmap
  pub fits : len < 2 ^ 60

quiet : {bitmap : BitMap} {len : ℕ} → IsStored bitmap len → IsReadable (λ _. bitmap) len
quiet ok = record {
  holds_bytes = λ _. ok.holds_bytes;
  holds_len = λ _. ok.holds_len;
  fits = ok.fits;
}

IsFirst-IsNextBit :
    (s : Sought) (bitmap : BitMap) (lo hi : ℕ) (r : Scan)
    → IsFirst s (λ _. bitmap) lo hi r
    → IsNextBit (wanted s) bitmap lo hi r
IsFirst-IsNextBit occupied bitmap lo hi (found j) f =
    (f.0, f.1, f.2.2, λ k a b e. omega (arith, (f.3 k a b).2))
IsFirst-IsNextBit available bitmap lo hi (found j) f =
    (f.0, f.1, f.2.2, λ k a b e. omega (arith, (f.3 k a b).2))
IsFirst-IsNextBit occupied bitmap lo hi missing f = λ k a b e. omega (arith, (f k a b).2)
IsFirst-IsNextBit available bitmap lo hi missing f = λ k a b e. omega (arith, (f k a b).2)
IsFirst-IsNextBit s bitmap lo hi fault f = f
IsFirst-IsNextBit s bitmap lo hi hung f = f

-- There is one first bit.
IsNextBit-unique :
    (v : ℕ) (bitmap : BitMap) (lo hi : ℕ) (r t : Scan)
    → IsNextBit v bitmap lo hi r
    → IsNextBit v bitmap lo hi t
    → r ≡ t
IsNextBit-unique v bitmap lo hi (found j) (found k) p q = ap found same
  where
    same : j ≡ k
    same = elim (Bool-cases (ltb j k)) [
      | inl below ↦ absurd (q.3 j p.0 (ltb→lt j k below) p.2)
      | inr above ↦ elim (Bool-cases (ltb k j)) [
        | inl below ↦ absurd (p.3 k q.0 (ltb→lt k j below) q.2)
        | inr equal ↦ ground arith
      ]
    ]
IsNextBit-unique v bitmap lo hi (found j) missing p q = absurd (q j p.0 p.1 p.2)
IsNextBit-unique v bitmap lo hi missing (found k) p q = absurd (p k q.0 q.1 q.2)
IsNextBit-unique v bitmap lo hi missing missing p q = refl
IsNextBit-unique v bitmap lo hi fault t p q = absurd p
IsNextBit-unique v bitmap lo hi hung t p q = absurd p
IsNextBit-unique v bitmap lo hi (found j) fault p q = absurd q
IsNextBit-unique v bitmap lo hi (found j) hung p q = absurd q
IsNextBit-unique v bitmap lo hi missing fault p q = absurd q
IsNextBit-unique v bitmap lo hi missing hung p q = absurd q

module _ (bitmap : BitMap) (offset len : ℕ) (ok : IsStored bitmap len) where
  pub next_occupied_bit-IsNextBit :
      IsNextBit 1 bitmap offset (8 * len) (next_occupied_bit bitmap offset len)
  next_occupied_bit-IsNextBit =
      IsFirst-IsNextBit occupied bitmap offset (8 * len) _
        (next_occupied_bit-IsFirst bitmap offset len (quiet ok))

  pub next_available_bit-IsNextBit :
      IsNextBit 0 bitmap offset (8 * len) (next_available_bit bitmap offset len)
  next_available_bit-IsNextBit =
      IsFirst-IsNextBit available bitmap offset (8 * len) _
        (next_available_bit-IsFirst bitmap offset len (quiet ok))

  -- `mcmpBitmapNextOccupiedBit` and `mcmpBitmapNextAvaibleBit`, which read words of 8, 4, 2 and 1
  -- bytes, return the first bit that is set, or clear, from `offset` on and below `8 * len`, and -1
  -- exactly when there is none. They read nothing out of the bitmap and their loops end, if the bitmap
  -- is of bytes and at least `len` bytes long, and `len` is below 2 ^ 60.
  pub next_bits-IsNextBit :
      IsNextBit 1 bitmap offset (8 * len) (next_occupied_bit bitmap offset len)
      × IsNextBit 0 bitmap offset (8 * len) (next_available_bit bitmap offset len)
  next_bits-IsNextBit = (next_occupied_bit-IsNextBit, next_available_bit-IsNextBit)

  pub atomic_next_occupied_bit-IsNextBit :
      IsNextBit 1 bitmap offset (8 * len) (atomic_next_occupied_bit (λ _. bitmap) offset len)
  atomic_next_occupied_bit-IsNextBit =
      IsFirst-IsNextBit occupied bitmap offset (8 * len) _
        (atomic_next_occupied_bit-IsFirst (λ _. bitmap) offset len (quiet ok))

  pub atomic_next_available_bit-IsNextBit :
      IsNextBit 0 bitmap offset (8 * len) (atomic_next_available_bit (λ _. bitmap) offset len)
  atomic_next_available_bit-IsNextBit =
      IsFirst-IsNextBit available bitmap offset (8 * len) _
        (atomic_next_available_bit-IsFirst (λ _. bitmap) offset len (quiet ok))

  -- On a bitmap that is not written to during the scan the atomic scans return what those of
  -- bitmap.c return, if the bitmap is of bytes and at least `len` bytes long, and `len` is below
  -- 2 ^ 60.
  atomic-eq-plain :
      (atomic_next_occupied_bit (λ _. bitmap) offset len ≡ next_occupied_bit bitmap offset len)
      × (atomic_next_available_bit (λ _. bitmap) offset len ≡ next_available_bit bitmap offset len)
  atomic-eq-plain = (
    IsNextBit-unique 1 bitmap offset (8 * len) _ _ atomic_next_occupied_bit-IsNextBit
        next_occupied_bit-IsNextBit,
    IsNextBit-unique 0 bitmap offset (8 * len) _ _ atomic_next_available_bit-IsNextBit
        next_available_bit-IsNextBit,
  )
