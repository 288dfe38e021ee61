-- ===== src/Bits/Fields.antt =====
-- A number as a high field `a` of at most `w` bits and a low field of `k` bits.
use Prim.Native.Nat.{min, max}
use mcmp.Common.{ℕ, zero, suc, ◌+◌, ◌-◌, ◌*◌, ◌/◌, ◌%◌, ◌^◌, ◌<◌, ◌≡◌, ◌∙◌, arith, bit_and, bit_or}
use mcmp.Bits.Step.{bit_and-halves, bit_or-halves}
use mcmp.Bits.Digits.{digit-bit_and, digit-bit_or, digit_ext, digit-zero, bit_and-lt, bit_or-lt}

doubled : (a k : ℕ) → a * 2 ^ suc k ≡ 2 * (a * 2 ^ k)
doubled a k = grind arith

bit_and-step :
    (a b a' b' : ℕ)
    → a / 2 ≡ a'
    → b / 2 ≡ b'
    → bit_and a b ≡ 2 * bit_and a' b' + min (a % 2) (b % 2)
bit_and-step a b a' b' p q = rw (← p, ← q) (bit_and-halves a b)

module _ (w a : ℕ) (small : a < 2 ^ w) where
  bit_and-zero : bit_and a 0 ≡ 0
  bit_and-zero =
      digit_ext w (bit_and a 0) 0 (bit_and-lt w a 0 small) (omega (arith, small))
        λ k q. omega (arith, digit-bit_and a 0 k, digit-zero k)

  bit_or-zero : bit_or a 0 ≡ a
  bit_or-zero =
      digit_ext w (bit_or a 0) a (bit_or-lt w a 0 small (omega (arith, small))) small
        λ k q. omega (arith, digit-bit_or a 0 k, digit-zero k)

  pub fields-bit_or : (k c : ℕ) → c < 2 ^ k → bit_or (a * 2 ^ k) c ≡ a * 2 ^ k + c
  fields-bit_or zero c h =
      let one : a * 1 ≡ a = omega arith in
      let none : c ≡ 0 = omega (arith, h) in rw (one, none) (bit_or-zero ∙ omega arith)
  fields-bit_or (suc k) c h =
      let half : a * 2 ^ suc k / 2 ≡ a * 2 ^ k = omega (arith, doubled a k) in
      let step : bit_or (a * 2 ^ suc k) c
          ≡ 2 * bit_or (a * 2 ^ k) (c / 2) + max (a * 2 ^ suc k % 2) (c % 2) =
        rw (← half) (bit_or-halves (a * 2 ^ suc k) c) in
      omega (arith, step, doubled a k, fields-bit_or k (c / 2) (omega arith))

  pub bit_and-low : (k c : ℕ) → c < 2 ^ k → bit_and (a * 2 ^ k + c) (2 ^ k - 1) ≡ c
  bit_and-low zero c h =
      let whole : a * 1 + c ≡ a = omega (arith, h) in rw whole (bit_and-zero ∙ omega (arith, h))
  bit_and-low (suc k) c h = omega (
    arith,
    bit_and-step (a * 2 ^ suc k + c) (2 ^ suc k - 1) (a * 2 ^ k + c / 2) (2 ^ k - 1)
        (omega (arith, doubled a k)) (omega arith),
    doubled a k,
    bit_and-low k (c / 2) (omega arith),
  )

  pub bit_and-high :
      (k b c : ℕ) → c < 2 ^ k → bit_and (a * 2 ^ k + c) (b * 2 ^ k) ≡ bit_and a b * 2 ^ k
  bit_and-high zero b c h =
      let whole : a * 1 + c ≡ a = omega (arith, h) in
      let one : b * 1 ≡ b = omega arith in rw (whole, one) (omega arith)
  bit_and-high (suc k) b c h = omega (
    arith,
    bit_and-step (a * 2 ^ suc k + c) (b * 2 ^ suc k) (a * 2 ^ k + c / 2) (b * 2 ^ k)
        (omega (arith, doubled a k)) (omega (arith, doubled b k)),
    doubled a k,
    doubled b k,
    doubled (bit_and a b) k,
    bit_and-high k b (c / 2) (omega arith),
  )

pub bit_and-all : (k c : ℕ) → c < 2 ^ k → bit_and c (2 ^ k - 1) ≡ c
bit_and-all k c h =
    let whole : 0 * 2 ^ k + c ≡ c = omega arith in rw whole at (bit_and-low 1 0 (omega arith) k c h)
