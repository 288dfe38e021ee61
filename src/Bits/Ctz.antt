-- ===== src/Bits/Ctz.antt =====
-- `__builtin_ctz` and `__builtin_ctzll`: the number of trailing zeros.
use native.Mathlib.Nat.{pow-suc}
use mcmp.Common.{
  ℕ, zero, suc, ◌/◌, ◌%◌, ◌^◌, ◌≤◌, ◌<◌, ◌≡◌, ◌≢◌, inl, inr, arith, ◌==◌, if◌then◌else◌, Bool-cases,
}
use mcmp.Bits.Digits.{digit}

-- The count at `w` bits. It is undefined in C at 0, where it is `w` here.
unfoldable pub ctz : ℕ → ℕ → ℕ
ctz zero n = 0
ctz (suc w) n = if n % 2 == 1 then 0 else suc (ctz w (n / 2))

-- `c` is the lowest digit that is set in `n`, and lies below `w`.
pub record IsLowest (w n c : ℕ) : Type 0 where
  pub inside : c < w
  pub hit : digit n c ≡ 1
  pub below : (p : ℕ) → p < c → digit n p ≡ 0

IsLowest-odd : (w n : ℕ) → n % 2 ≡ 1 → IsLowest (suc w) n 0
IsLowest-odd w n h = record { inside = omega arith; hit = h; below = λ p q. absurd (omega arith) }

IsLowest-even : (w n c : ℕ) → n % 2 ≡ 0 → IsLowest w (n / 2) c → IsLowest (suc w) n (suc c)
IsLowest-even w n c h l = record {
  inside = omega (arith, l.inside);
  hit = l.hit;
  below = below_suc;
}
  where
    below_suc : (p : ℕ) → p < suc c → digit n p ≡ 0
    below_suc zero q = h
    below_suc (suc p) q = l.below p (omega arith)

-- The operand may be wider than the value in it: a byte is promoted to 32 bits.
pub ctz-IsLowest : (v w n : ℕ) → v ≤ w → n < 2 ^ v → n ≢ 0 → IsLowest v n (ctz w n)
unfolding ctz
ctz-IsLowest zero w n le lt ne = absurd (ne (omega arith))
ctz-IsLowest (suc v) zero n le lt ne = absurd (omega arith)
ctz-IsLowest (suc v) (suc w) n le lt ne = elim (Bool-cases (n % 2 == 1)) [
  | inl odd ↦ rw odd (IsLowest-odd v n (ground arith))
  | inr even ↦ rw even (
      IsLowest-even v n (ctz w (n / 2)) (ground arith) (
        ctz-IsLowest v w (n / 2) (omega arith) (omega (arith, pow-suc 2 v))
          (λ e. ne (ground arith))))
]
