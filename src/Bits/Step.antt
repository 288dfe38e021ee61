-- ===== src/Bits/Step.antt =====
-- The native bit operations by their lowest digit.
use Prim.Native.Nat.{min, max, digits, bitwise, bit_and-bitwise, bit_or-bitwise}
use native.Mathlib.Decide.{ℕ_discrete}
use mcmp.Common.{ℕ, zero, suc, ◌+◌, ◌*◌, ◌/◌, ◌%◌, ◌≤◌, ◌≡◌, refl, ◌∙◌, arith, bit_and, bit_or}

-- `bitwise` runs `digits` with its first operand for fuel.
module _ (rest : ℕ → ℕ) (join : ℕ → ℕ → ℕ) where
  one_more : (fuel a b : ℕ) → a ≤ fuel → digits rest join (suc fuel) a b ≡ digits rest join fuel a b
  one_more fuel zero b h =
      elim fuel as (λ n. digits rest join (suc n) 0 b ≡ digits rest join n 0 b) [
        | zero ↦ refl
        | suc n ↦ refl
      ]
  one_more zero (suc a) b h = absurd (omega arith)
  one_more (suc fuel) (suc a) b h = rw (one_more fuel (suc a / 2) (b / 2) (omega arith))

  settles : (fuel a b : ℕ) → a ≤ fuel → digits rest join fuel a b ≡ bitwise rest join a b
  settles zero a b h = let none_left : a ≡ 0 = omega arith in rw none_left
  settles (suc fuel) a b h = elim (ℕ_discrete a (suc fuel)) [
    | yes whole ↦ rw whole
    | no less ↦ one_more fuel a b (omega arith) ∙ settles fuel a b (omega arith)
  ]

  bitwise-halves :
      (a b : ℕ)
      → bitwise rest join (suc a) b
        ≡ 2 * bitwise rest join (suc a / 2) (b / 2) + join (suc a % 2) (b % 2)
  bitwise-halves a b = omega (arith, settles a (suc a / 2) (b / 2) (omega arith))

pub zero-bit_and : (b : ℕ) → bit_and 0 b ≡ 0
zero-bit_and = bit_and-bitwise 0

pub bit_and-halves : (a b : ℕ) → bit_and a b ≡ 2 * bit_and (a / 2) (b / 2) + min (a % 2) (b % 2)
bit_and-halves zero b = omega (arith, zero-bit_and b, zero-bit_and (b / 2))
bit_and-halves (suc a) b = simp bit_and-bitwise (bitwise-halves (λ _. 0) min a b)

pub bit_or-halves : (a b : ℕ) → bit_or a b ≡ 2 * bit_or (a / 2) (b / 2) + max (a % 2) (b % 2)
bit_or-halves zero b = omega (arith, bit_or-bitwise 0 b, bit_or-bitwise 0 (b / 2))
bit_or-halves (suc a) b = simp bit_or-bitwise (bitwise-halves (λ t. t) max a b)
