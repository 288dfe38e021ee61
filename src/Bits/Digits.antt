-- ===== src/Bits/Digits.antt =====
-- One binary digit of a number, and the digits of masks, complements and combinations.
use Prim.Native.Nat.{min, max}
use native.Mathlib.Nat.{pow-suc, one-le-pow}
use mcmp.Common.{
  ℕ, zero, suc, ◌+◌, ◌-◌, ◌*◌, ◌/◌, ◌%◌, ◌^◌, ◌≤◌, ◌<◌, bit_and, bit_or, ◌≡◌, ◌≢◌, refl, ap, arith,
}
use mcmp.Bits.Step.{bit_or-halves, bit_and-halves, zero-bit_and}

-- The digit of weight `2 ^ p`.
abbrev pub digit : ℕ → ℕ → ℕ
digit n zero = n % 2
digit n (suc p) = digit (n / 2) p

-- `~n` at `w` bits.
abbrev pub invert : ℕ → ℕ → ℕ
invert w n = 2 ^ w - 1 - n

pub digit-le : (n p : ℕ) → digit n p ≤ 1
digit-le n zero = omega arith
digit-le n (suc p) = digit-le (n / 2) p

pub digit-zero : (p : ℕ) → digit 0 p ≡ 0
digit-zero zero = refl
digit-zero (suc p) = digit-zero p

pub digit-bit_and : (a b p : ℕ) → digit (bit_and a b) p ≡ min (digit a p) (digit b p)
digit-bit_and a b zero = omega (arith, bit_and-halves a b)
digit-bit_and a b (suc p) =
    let half : bit_and a b / 2 ≡ bit_and (a / 2) (b / 2) = omega (arith, bit_and-halves a b) in
    rw half (digit-bit_and (a / 2) (b / 2) p)

pub digit-bit_or : (a b p : ℕ) → digit (bit_or a b) p ≡ max (digit a p) (digit b p)
digit-bit_or a b zero = omega (arith, bit_or-halves a b)
digit-bit_or a b (suc p) =
    let half : bit_or a b / 2 ≡ bit_or (a / 2) (b / 2) = omega (arith, bit_or-halves a b) in
    rw half (digit-bit_or (a / 2) (b / 2) p)

pub digit-invert : (w n p : ℕ) → n < 2 ^ w → p < w → digit (invert w n) p ≡ 1 - digit n p
digit-invert zero n p h q = absurd (omega arith)
digit-invert (suc w) n zero h q = omega (arith, pow-suc 2 w)
digit-invert (suc w) n (suc p) h q =
    let half : invert (suc w) n / 2 ≡ invert w (n / 2) = omega (arith, pow-suc 2 w) in
    rw half (digit-invert w (n / 2) p (omega (arith, pow-suc 2 w)) (omega arith))

pub digit-pow_self : (k : ℕ) → digit (2 ^ k) k ≡ 1
digit-pow_self zero = refl
digit-pow_self (suc k) =
    let half : 2 ^ suc k / 2 ≡ 2 ^ k = omega (arith, pow-suc 2 k) in rw half (digit-pow_self k)

pub digit-pow_ne : (k p : ℕ) → k ≢ p → digit (2 ^ k) p ≡ 0
digit-pow_ne zero zero h = absurd (h refl)
digit-pow_ne zero (suc p) h = digit-zero p
digit-pow_ne (suc k) zero h = omega (arith, pow-suc 2 k)
digit-pow_ne (suc k) (suc p) h =
    let half : 2 ^ suc k / 2 ≡ 2 ^ k = omega (arith, pow-suc 2 k) in
    rw half (digit-pow_ne k p (λ e. h (ap suc e)))

pub digit-mask_below : (k p : ℕ) → p < k → digit (2 ^ k - 1) p ≡ 1
digit-mask_below zero p h = absurd (omega arith)
digit-mask_below (suc k) zero h = omega (arith, pow-suc 2 k, one-le-pow k 2)
digit-mask_below (suc k) (suc p) h =
    let half : (2 ^ suc k - 1) / 2 ≡ 2 ^ k - 1 = omega (arith, pow-suc 2 k, one-le-pow k 2) in
    rw half (digit-mask_below k p (omega arith))

pub digit-mask_above : (k p : ℕ) → k ≤ p → digit (2 ^ k - 1) p ≡ 0
digit-mask_above zero p h = digit-zero p
digit-mask_above (suc k) zero h = absurd (omega arith)
digit-mask_above (suc k) (suc p) h =
    let half : (2 ^ suc k - 1) / 2 ≡ 2 ^ k - 1 = omega (arith, pow-suc 2 k, one-le-pow k 2) in
    rw half (digit-mask_above k p (omega arith))

-- Numbers of at most `w` bits are equal when their digits are.
pub digit_ext :
    (w a b : ℕ) → a < 2 ^ w → b < 2 ^ w → ((p : ℕ) → p < w → digit a p ≡ digit b p) → a ≡ b
digit_ext zero a b ha hb h = omega arith
digit_ext (suc w) a b ha hb h = omega (
  arith,
  h 0 (omega arith),
  digit_ext w (a / 2) (b / 2) (omega (arith, pow-suc 2 w)) (omega (arith, pow-suc 2 w))
      (λ p q. h (suc p) (omega arith)),
)

pub bit_or-lt : (w a b : ℕ) → a < 2 ^ w → b < 2 ^ w → bit_or a b < 2 ^ w
bit_or-lt zero a b ha hb =
    let ea : a ≡ 0 = omega arith in let eb : b ≡ 0 = omega arith in rw (ea, eb) (omega arith)
bit_or-lt (suc w) a b ha hb = omega (
  arith,
  pow-suc 2 w,
  bit_or-halves a b,
  bit_or-lt w (a / 2) (b / 2) (omega (arith, pow-suc 2 w)) (omega (arith, pow-suc 2 w)),
)

pub bit_and-lt : (w a b : ℕ) → a < 2 ^ w → bit_and a b < 2 ^ w
bit_and-lt zero a b ha = let ea : a ≡ 0 = omega arith in rw ea (omega (arith, zero-bit_and b))
bit_and-lt (suc w) a b ha = omega (
  arith,
  pow-suc 2 w,
  bit_and-halves a b,
  bit_and-lt w (a / 2) (b / 2) (omega (arith, pow-suc 2 w)),
)

-- Two numbers side by side: the lower eight digits are the byte's.
pub digit-concat_low : (b r p : ℕ) → p < 8 → digit (b + 256 * r) p ≡ digit b p
digit-concat_low b r zero h = omega arith
digit-concat_low b r (suc zero) h = omega arith
digit-concat_low b r (suc (suc zero)) h = omega arith
digit-concat_low b r (suc (suc (suc zero))) h = omega arith
digit-concat_low b r (suc (suc (suc (suc zero)))) h = omega arith
digit-concat_low b r (suc (suc (suc (suc (suc zero))))) h = omega arith
digit-concat_low b r (suc (suc (suc (suc (suc (suc zero)))))) h = omega arith
digit-concat_low b r (suc (suc (suc (suc (suc (suc (suc zero))))))) h = omega arith
digit-concat_low b r (suc (suc (suc (suc (suc (suc (suc (suc p)))))))) h = absurd (omega arith)

pub digit-concat_high :
    (b r p : ℕ)
    → b < 256
    → digit (b + 256 * r) (suc (suc (suc (suc (suc (suc (suc (suc p)))))))) ≡ digit r p
digit-concat_high b r p h =
    let rest : (b + 256 * r) / 2 / 2 / 2 / 2 / 2 / 2 / 2 / 2 ≡ r = omega arith in rw rest
