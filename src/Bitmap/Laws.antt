-- ===== src/Bitmap/Laws.antt =====
-- What the functions on one bit of bitmap.c do to every bit of the bitmap.
use native.Mathlib.Nat.{pow-le-pow_right}
use native.Mathlib.Decide.{ℕ_discrete}
use mcmp.Common.{
  ℕ, ◌*◌, ◌/◌, ◌%◌, ◌^◌, ◌≤◌, ◌<◌, bit_and, bit_or, ◌≡◌, ◌↔◌, inl, inr, true, arith, ◌==◌,
  if◌then◌else◌, Bool-cases, length, get_or, set, length-set, set_beyond, length-replicate, ltb,
  ltb→lt, get_or-set_self, get_or-set_ne, get_or-replicate,
}
use mcmp.Bits.{
  digit, digit-le, digit-zero, digit-bit_and, digit-bit_or, digit-invert, digit-pow_self,
  digit-pow_ne, digit_ext, invert, bit_or-lt, bit_and-lt,
}
use mcmp.Bitmap.{
  BitMap, IsBytes, bit_at, is_enabled_bit, is_disabled_bit, clean_order, enable_bit, disable_bit,
}

pub bit_at-le : (bitmap : BitMap) (j : ℕ) → bit_at bitmap j ≤ 1
unfolding bit_at
bit_at-le bitmap j = digit-le (get_or bitmap (j / 8) 0) (j % 8)

pow-lt_byte : (r : ℕ) → r < 8 → 2 ^ r < 2 ^ 8
pow-lt_byte r h =
    omega (arith, pow-le-pow_right {n = 2} (omega arith) {i = r} {j = 7} (omega arith))

-- A test of one bit by a mask.
and_pow-eq-zero : (b k : ℕ) → b < 2 ^ 8 → k < 8 → (bit_and b (2 ^ k) ≡ 0) ↔ (digit b k ≡ 0)
and_pow-eq-zero b k hb hk = (
  λ e. omega (arith, digit-bit_and b (2 ^ k) k, digit-pow_self k, at_zero e),
  λ e. digit_ext 8 (bit_and b (2 ^ k)) 0 (bit_and-lt 8 b (2 ^ k) hb) (omega arith) λ p q. each e p,
)
  where
    at_zero : bit_and b (2 ^ k) ≡ 0 → digit (bit_and b (2 ^ k)) k ≡ 0
    at_zero e = rw e (digit-zero k)

    each : digit b k ≡ 0 → (p : ℕ) → digit (bit_and b (2 ^ k)) p ≡ digit 0 p
    each e p = elim (ℕ_discrete k p) [
      | yes same ↦ rw (← same) (omega (arith, digit-bit_and b (2 ^ k) k, e, digit-zero k))
      | no differ ↦ omega (arith, digit-bit_and b (2 ^ k) p, digit-pow_ne k p differ, digit-zero p)
    ]

module _ (bitmap : BitMap) (idx : ℕ) (bytes : IsBytes bitmap) where
  -- The test of a bit that the sources write out.
  pub byte_test :
      (bit_and (get_or bitmap (idx / 8) 0) (2 ^ (idx % 8)) ≡ 0) ↔ (bit_at bitmap idx ≡ 0)
  unfolding bit_at
  byte_test = and_pow-eq-zero (get_or bitmap (idx / 8) 0) (idx % 8) (bytes (idx / 8)) (omega arith)

  -- `mcmpBitmapIsDisabledBit` and `mcmpBitmapIsEnabledBit` tell the value of the bit.
  pub tests_bit :
      ((is_disabled_bit bitmap idx ≡ true) ↔ (bit_at bitmap idx ≡ 0))
      × ((is_enabled_bit bitmap idx ≡ true) ↔ (bit_at bitmap idx ≡ 1))
  unfolding is_disabled_bit is_enabled_bit bit_at
  tests_bit = ground (
    arith,
    and_pow-eq-zero (get_or bitmap (idx / 8) 0) (idx % 8) (bytes (idx / 8)) (omega arith),
    digit-le (get_or bitmap (idx / 8) 0) (idx % 8),
  )

-- A write of one byte, seen at each bit.
bit_at-set :
    (bitmap : BitMap) (i v j : ℕ)
    → i < length bitmap
    → bit_at (set bitmap i v) j ≡ (if i == j / 8 then digit v (j % 8) else bit_at bitmap j)
unfolding bit_at
bit_at-set bitmap i v j h = elim (ℕ_discrete i (j / 8)) [
  | yes same ↦ rw (← same, get_or-set_self bitmap i v 0 h) (ground arith)
  | no differ ↦ rw (get_or-set_ne bitmap i (j / 8) v 0 differ) (ground arith)
]

IsBytes-set : (bitmap : BitMap) (i v : ℕ) → IsBytes bitmap → v < 2 ^ 8 → IsBytes (set bitmap i v)
IsBytes-set bitmap i v bytes h j = elim (ℕ_discrete i j) [
  | yes same ↦ elim (Bool-cases (ltb i (length bitmap))) [
    | inl inside ↦ rw (← same, get_or-set_self bitmap i v 0 (ltb→lt i _ inside)) h
    | inr beyond ↦ rw (set_beyond bitmap i v (ground arith)) (bytes j)
  ]
  | no differ ↦ rw (get_or-set_ne bitmap i j v 0 differ) (bytes j)
]

digit-or_pow : (b r p : ℕ) → digit (bit_or b (2 ^ r)) p ≡ (if r == p then 1 else digit b p)
digit-or_pow b r p = elim (ℕ_discrete r p) [
  | yes same ↦ rw (← same, digit-bit_or, digit-pow_self) (ground (arith, digit-le b r))
  | no differ ↦ rw (digit-bit_or, digit-pow_ne r p differ) (ground arith)
]

digit-and_not_pow :
    (b r p : ℕ)
    → r < 8
    → p < 8
    → digit (bit_and b (invert 8 (2 ^ r))) p ≡ (if r == p then 0 else digit b p)
digit-and_not_pow b r p hr hp = elim (ℕ_discrete r p) [
  | yes same ↦
      rw (← same, digit-bit_and, digit-invert 8 (2 ^ r) r (pow-lt_byte r hr) hr, digit-pow_self)
        (ground arith)
  | no differ ↦
      rw (digit-bit_and, digit-invert 8 (2 ^ r) p (pow-lt_byte r hr) hp, digit-pow_ne r p differ)
        (ground (arith, digit-le b p))
]

module _ (bitmap : BitMap) (idx : ℕ) where
  same_bit :
      (v j : ℕ)
      → (if idx / 8 == j / 8
          then if idx % 8 == j % 8 then v else digit (get_or bitmap (idx / 8) 0) (j % 8)
          else bit_at bitmap j)
        ≡ (if idx == j then v else bit_at bitmap j)
  unfolding bit_at
  same_bit v j = elim (ℕ_discrete (idx / 8) (j / 8)) [
    | yes same ↦ rw (← same) (ground arith)
    | no differ ↦ ground arith
  ]

  pub bit_at-enable_bit :
      (j : ℕ)
      → idx < 8 * length bitmap
      → bit_at (enable_bit bitmap idx) j ≡ (if idx == j then 1 else bit_at bitmap j)
  unfolding enable_bit
  bit_at-enable_bit j h =
      rw (bit_at-set bitmap (idx / 8) _ j (omega arith), digit-or_pow) (same_bit 1 j)

  pub bit_at-disable_bit :
      (j : ℕ)
      → idx < 8 * length bitmap
      → bit_at (disable_bit bitmap idx) j ≡ (if idx == j then 0 else bit_at bitmap j)
  unfolding disable_bit
  bit_at-disable_bit j h =
      rw
        (
          bit_at-set bitmap (idx / 8) _ j (omega arith),
          digit-and_not_pow (get_or bitmap (idx / 8) 0) (idx % 8) (j % 8) (omega arith)
              (omega arith),
        )
        (same_bit 0 j)

  pub enable_bit-IsBytes : IsBytes bitmap → IsBytes (enable_bit bitmap idx)
  unfolding enable_bit
  enable_bit-IsBytes bytes =
      IsBytes-set bitmap (idx / 8) _ bytes
        (bit_or-lt 8 _ _ (bytes (idx / 8)) (pow-lt_byte (idx % 8) (omega arith)))

  pub disable_bit-IsBytes : IsBytes bitmap → IsBytes (disable_bit bitmap idx)
  unfolding disable_bit
  disable_bit-IsBytes bytes =
      IsBytes-set bitmap (idx / 8) _ bytes (bit_and-lt 8 _ _ (bytes (idx / 8)))

  pub length-enable_bit : length (enable_bit bitmap idx) ≡ length bitmap
  unfolding enable_bit
  length-enable_bit = length-set bitmap (idx / 8) _

  pub length-disable_bit : length (disable_bit bitmap idx) ≡ length bitmap
  unfolding disable_bit
  length-disable_bit = length-set bitmap (idx / 8) _

-- `mcmpBitmapEnableBit` sets the bit, `mcmpBitmapDisableBit` clears it, and neither changes any other
-- bit, if the bit lies in the bitmap.
write_bit :
    (bitmap : BitMap) (idx : ℕ)
    → idx < 8 * length bitmap
    → ((j : ℕ) → bit_at (enable_bit bitmap idx) j ≡ (if idx == j then 1 else bit_at bitmap j))
      × ((j : ℕ) → bit_at (disable_bit bitmap idx) j ≡ (if idx == j then 0 else bit_at bitmap j))
write_bit bitmap idx h =
    (λ j. bit_at-enable_bit bitmap idx j h, λ j. bit_at-disable_bit bitmap idx j h)

pub bit_at-clean_order : (len j : ℕ) → bit_at (clean_order len) j ≡ 0
unfolding bit_at clean_order
bit_at-clean_order len j = rw (get_or-replicate {A = ℕ} len (j / 8) 0) (digit-zero (j % 8))

pub length-clean_order : (len : ℕ) → length (clean_order len) ≡ len
unfolding clean_order
length-clean_order len = length-replicate len 0

pub clean_order-IsBytes : (len : ℕ) → IsBytes (clean_order len)
unfolding clean_order
clean_order-IsBytes len j = rw (get_or-replicate {A = ℕ} len j 0) (omega arith)
