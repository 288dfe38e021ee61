-- ===== src/Bitmap/Scan/Sweep.antt =====
-- What the loops of a scan find, whatever is written to the bitmap between their loads.
use mcmp.Common.{
  ℕ, zero, suc, ◌+◌, ◌-◌, ◌*◌, ◌^◌, ◌≤◌, ◌<◌, ◌≡◌, ◌≢◌, sym, ap, ◌∙◌, inl, inr, arith, ◌==◌, ltb,
  Bool-cases, ltb→lt, size_add, length,
}
use mcmp.Bits.{digit, digit-le, digit-zero, digit-invert, ctz, ctz-IsLowest}
use mcmp.Bitmap.{IsBytes, bit_at}
use mcmp.Bitmap.Word.{Loaded, word_at-Loaded, byte-Loaded}
use mcmp.Bitmap.Scan.{
  Scan, found, missing, fault, hung, Exit, return, next, Sought, occupied, available, Memory, view,
  ◌>>=◌, bit_index, words, bytes, sweep,
}

-- The value of a bit that the scan looks for, and of the others.
abbrev pub wanted : Sought → ℕ
wanted occupied = 1
wanted available = 0

abbrev pub other : Sought → ℕ
other occupied = 0
other available = 1

-- Bit `j` has the value `v` in the memory at some load of the scan at or before the bit's byte.
abbrev Seen : Memory → ℕ → ℕ → Type 0
Seen memory v j = (i : ℕ) × (8 * i ≤ j) × (bit_at (memory i) j ≡ v)

abbrev Passed : Sought → Memory → ℕ → ℕ → Type 0
Passed s memory lo hi = (j : ℕ) → lo ≤ j → j < hi → Seen memory (other s) j

-- The scan's result is the first bit from `lo` on, below `hi`, that is seen with the value sought.
abbrev pub IsFirst : Sought → Memory → ℕ → ℕ → Scan → Type 0
IsFirst s memory lo hi (found j) =
    (lo ≤ j) × (j < hi) × Seen memory (wanted s) j × Passed s memory lo j
IsFirst s memory lo hi missing = Passed s memory lo hi
IsFirst s memory lo hi fault = ⊥
IsFirst s memory lo hi hung = ⊥

-- The memory of a scan holds bytes, and at least the `len` that the scan is told of.
pub record IsReadable (memory : Memory) (len : ℕ) : Type 0 where
  pub holds_bytes : (i : ℕ) → IsBytes (memory i)
  pub holds_len : (i : ℕ) → len ≤ length (memory i)
  pub fits : len < 2 ^ 60

Passed-append :
    (s : Sought) (memory : Memory) (lo mid hi : ℕ)
    → Passed s memory lo mid
    → Passed s memory mid hi
    → Passed s memory lo hi
Passed-append s memory lo mid hi p q j a b = elim (Bool-cases (ltb j mid)) [
  | inl before ↦ p j a (ground arith)
  | inr after ↦ q j (ground arith) b
]

pub IsFirst-append :
    (s : Sought) (memory : Memory) (lo mid hi : ℕ) (r : Scan)
    → lo ≤ mid
    → Passed s memory lo mid
    → IsFirst s memory mid hi r
    → IsFirst s memory lo hi r
IsFirst-append s memory lo mid hi (found j) le p f =
    (omega arith, f.1, f.2, Passed-append s memory lo mid j p f.3)
IsFirst-append s memory lo mid hi missing le p f = Passed-append s memory lo mid hi p f
IsFirst-append s memory lo mid hi fault le p f = f
IsFirst-append s memory lo mid hi hung le p f = f

-- What the value `v` that a scan tests says of the `w` bytes at `i`: its lowest `skip` digits are
-- masked out, and of the others the set ones stand for bits with the value sought.
pub record Looks (s : Sought) (memory : Memory) (i w skip v : ℕ) : Type 0 where
  pub small : v < 2 ^ (8 * w)
  pub masked : (p : ℕ) → p < skip → digit v p ≡ 0
  pub yes_bit :
      (p : ℕ) → skip ≤ p → p < 8 * w → digit v p ≡ 1 → bit_at (memory i) (8 * i + p) ≡ wanted s
  pub no_bit :
      (p : ℕ) → skip ≤ p → p < 8 * w → digit v p ≡ 0 → bit_at (memory i) (8 * i + p) ≡ other s

view-Looks :
    (s : Sought) (memory : Memory) (i w : ℕ) (c : Loaded (memory i) i w)
    → Looks s memory i w 0 (view s w c.chunk)
view-Looks occupied memory i w c = record {
  small = c.small;
  masked = λ p h. absurd (omega arith);
  yes_bit = λ p a b e. sym (c.digits p b) ∙ e;
  no_bit = λ p a b e. sym (c.digits p b) ∙ e;
}
view-Looks available memory i w c = record {
  small = omega (arith, c.small);
  masked = λ p h. absurd (omega arith);
  yes_bit = λ p a b e.
      omega (arith, c.digits p b, digit-invert (8 * w) c.chunk p c.small b, digit-le c.chunk p);
  no_bit = λ p a b e.
      omega (arith, c.digits p b, digit-invert (8 * w) c.chunk p c.small b, digit-le c.chunk p);
}

module _ (s : Sought) (memory : Memory) {len : ℕ} (ok : IsReadable memory len) where
  -- A value with no digit: its bits are passed by.
  pub Looks-Passed :
      (lo hi i w skip v : ℕ)
      → lo ≡ 8 * i + skip
      → hi ≡ 8 * (i + w)
      → Looks s memory i w skip v
      → v ≡ 0
      → Passed s memory lo hi
  Looks-Passed lo hi i w skip v at to l e j a b =
      let there : 8 * i + (j - 8 * i) ≡ j = omega arith in
      let none_set : digit v (j - 8 * i) ≡ 0 = rw e (digit-zero (j - 8 * i)) in
      (
        i,
        omega arith,
        ap (bit_at (memory i)) (sym there)
            ∙ l.no_bit (j - 8 * i) (omega arith) (omega arith) none_set,
      )

  -- Otherwise its lowest digit is the first bit.
  pub Looks-IsFirst :
      (lo bits i w skip v : ℕ)
      → lo ≡ 8 * i + skip
      → Looks s memory i w skip v
      → 8 * w ≤ bits
      → i + w ≤ len
      → v ≢ 0
      → IsFirst s memory lo (8 * len) (found (bit_index i (ctz bits v)))
  Looks-IsFirst lo bits i w skip v at l wide h ne = rw index (
    omega (arith, unmasked),
    omega (arith, inside),
    (i, omega arith, l.yes_bit count unmasked inside hit),
    before,
  )
    where
      open (ctz-IsLowest (8 * w) bits v wide l.small ne) use {inside, hit, below}

      count : ℕ
      count = ctz bits v

      index : bit_index i count ≡ 8 * i + count
      index = omega (arith, ok.fits, inside)

      unmasked : skip ≤ count
      unmasked = elim (Bool-cases (ltb count skip)) [
        | inl m ↦ absurd (omega (arith, hit, l.masked count (ltb→lt count skip m)))
        | inr m ↦ ground arith
      ]

      before : Passed s memory lo (8 * i + count)
      before j a b =
          let there : 8 * i + (j - 8 * i) ≡ j = omega arith in
          (
            i,
            omega arith,
            ap (bit_at (memory i)) (sym there)
                ∙ l.no_bit (j - 8 * i) (omega arith) (omega (arith, inside))
                    (below (j - 8 * i) (omega arith)),
          )

-- A loop ends with the first bit, or at an index up to which it has passed every bit.
abbrev Ends : Sought → Memory → ℕ → ℕ → Exit → Type 0
Ends s memory len i (return r) = IsFirst s memory (8 * i) (8 * len) r
Ends s memory len i (next k) = (i ≤ k) × (k ≤ len) × Passed s memory (8 * i) (8 * k)

Ends-append :
    (s : Sought) (memory : Memory) (len i j : ℕ) (e : Exit)
    → i ≤ j
    → Passed s memory (8 * i) (8 * j)
    → Ends s memory len j e
    → Ends s memory len i e
Ends-append s memory len i j (return r) le p f =
    IsFirst-append s memory (8 * i) (8 * j) (8 * len) r (omega arith) p f
Ends-append s memory len i j (next k) le p f =
    (omega arith, f.1, Passed-append s memory (8 * i) (8 * j) (8 * k) p f.2)

module _ (s : Sought) (memory : Memory) (len : ℕ) (ok : IsReadable memory len) where
  words-Ends :
      (w bits : ℕ)
      → 8 * w ≤ bits
      → 0 < w
      → w ≤ 8
      → (fuel i : ℕ) → i ≤ len
      → len < i + fuel
      → Ends s memory len i (words s memory len w bits fuel i)
  unfolding words
  words-Ends w bits wide pos small zero i le enough = absurd (omega arith)
  words-Ends w bits wide pos small (suc fuel) i le enough =
      elim (Bool-cases (ltb (size_add i w) len)) [
        | inl more ↦
            let plain : size_add i w ≡ i + w = omega (arith, ok.fits) in
            let below : i + w < len = ground (arith, ltb→lt (size_add i w) len more) in
            let c =
              word_at-Loaded (memory i) i w (ok.holds_bytes i) (omega (arith, ok.holds_len i)) in
            let looks = view-Looks s memory i w c in
            rw (more, c.loads)
              (elim (Bool-cases (view s w c.chunk == 0)) [
                | inl z ↦ rw z (
                    Ends-append s memory len i (size_add i w) _ (omega arith)
                      (Looks-Passed s memory ok (8 * i) _ i w 0 _ (omega arith) (omega arith) looks
                        (ground arith))
                      (words-Ends w bits wide pos small fuel (size_add i w) (omega arith)
                        (omega arith)))
                | inr nz ↦ rw nz (
                    Looks-IsFirst s memory ok (8 * i) bits i w 0 _ (omega arith) looks wide
                      (omega arith) (λ e. ground arith))
              ])
        | inr stop ↦ rw stop (omega arith, le, λ j a b. absurd (omega arith))
      ]

  bytes-IsFirst :
      (fuel i : ℕ)
      → i ≤ len
      → len < i + fuel
      → IsFirst s memory (8 * i) (8 * len) (bytes s memory len fuel i)
  unfolding bytes
  bytes-IsFirst zero i le enough = absurd (omega arith)
  bytes-IsFirst (suc fuel) i le enough = elim (Bool-cases (ltb i len)) [
    | inl more ↦
        let plain : size_add i 1 ≡ i + 1 = omega (arith, ok.fits) in
        let below : i < len = ltb→lt i len more in
        let c = byte-Loaded (memory i) i (ok.holds_bytes i) (omega (arith, ok.holds_len i)) in
        let looks = view-Looks s memory i 1 c.0 in
        rw (more, c.1)
          (elim (Bool-cases (view s 1 c.0.chunk == 0)) [
            | inl z ↦ rw z (
                IsFirst-append s memory (8 * i) (8 * size_add i 1) (8 * len) _ (omega arith)
                  (Looks-Passed s memory ok (8 * i) _ i 1 0 _ (omega arith) (omega arith) looks
                    (ground arith))
                  (bytes-IsFirst fuel (size_add i 1) (omega arith) (omega arith)))
            | inr nz ↦ rw nz (
                Looks-IsFirst s memory ok (8 * i) 32 i 1 0 _ (omega arith) looks (omega arith)
                  (omega arith) (λ e. ground arith))
          ])
    | inr stop ↦ rw stop (λ j a b. absurd (ground arith))
  ]

  -- A loop and what comes after it.
  bind-IsFirst :
      (i : ℕ) (e : Exit) (f : ℕ → Scan)
      → Ends s memory len i e
      → ((k : ℕ) → k ≤ len → IsFirst s memory (8 * k) (8 * len) (f k))
      → IsFirst s memory (8 * i) (8 * len) (e >>= f)
  bind-IsFirst i (return r) f h rest = h
  bind-IsFirst i (next k) f h rest =
      IsFirst-append s memory (8 * i) (8 * k) (8 * len) (f k) (omega (arith, h.0)) h.2 (rest k h.1)

  -- The four loops together find the first bit, with the fuel that they are given.
  pub sweep-IsFirst : (i : ℕ) → i ≤ len → IsFirst s memory (8 * i) (8 * len) (sweep s memory len i)
  unfolding sweep
  sweep-IsFirst i le =
      bind-IsFirst i _ _
        (words-Ends 8 64 (omega arith) (omega arith) (omega arith) (suc len) i le (omega arith))
        λ j a.
          bind-IsFirst j _ _
            (words-Ends 4 32 (omega arith) (omega arith) (omega arith) (suc len) j a (omega arith))
            λ k b.
              bind-IsFirst k _ _
                (words-Ends 2 32 (omega arith) (omega arith) (omega arith) (suc len) k b
                  (omega arith))
                λ m c. bytes-IsFirst (suc len) m c (omega arith)
