-- ===== src/Bitmap/Word.antt =====
-- The loads of 1, 2, 4 and 8 bytes by which the scans read a bitmap (little-endian).
use native.Mathlib.Numerals.{towards_suc}
use mathlib.Core.Option
use mcmp.Common.{
  ℕ, zero, suc, ◌+◌, ◌*◌, ◌/◌, ◌%◌, ◌^◌, ◌≤◌, ◌<◌, ◌≡◌, refl, sym, ap, ◌∙◌, Option, none, some,
  arith, length, get_elem?, get_or, get_elem?-eq-get_or,
}
use mcmp.Bits.{digit, digit-concat_low, digit-concat_high}
use mcmp.Bitmap.{BitMap, IsBytes, bit_at}

-- `w` bytes from byte `i` on, as a number; `none` is a read past the end of the memory.
unfoldable pub word_at : BitMap → ℕ → ℕ → Option ℕ
word_at bitmap i zero = some 0
word_at bitmap i (suc w) = elim (get_elem? bitmap i) [
  | none ↦ none
  | some b ↦ Option.map (λ r. b + 256 * r) (word_at bitmap (i + 1) w)
]

-- What a load that stays in the memory gives.
pub record Loaded (bitmap : BitMap) (i w : ℕ) : Type 0 where
  pub chunk : ℕ
  pub loads : word_at bitmap i w ≡ some chunk
  pub small : chunk < 2 ^ (8 * w)
  pub digits : (p : ℕ) → p < 8 * w → digit chunk p ≡ bit_at bitmap (8 * i + p)

pub bit_at-byte :
    (bitmap : BitMap) (i p : ℕ) → p < 8 → bit_at bitmap (8 * i + p) ≡ digit (get_or bitmap i 0) p
unfolding bit_at
bit_at-byte bitmap i p lt =
    let byte : (8 * i + p) / 8 ≡ i = omega arith in
    let bit : (8 * i + p) % 8 ≡ p = omega arith in rw (bit_at, byte, bit)

pow_bytes-suc : (w : ℕ) → 2 ^ (8 * suc w) ≡ 256 * 2 ^ (8 * w)
pow_bytes-suc w =
    let width : 8 * suc w ≡ 8 * w + 8 = omega arith in rw width (simp towards_suc (omega arith))

digits-suc :
    (bitmap : BitMap) (i w r p : ℕ)
    → IsBytes bitmap
    → ((q : ℕ) → q < 8 * w → digit r q ≡ bit_at bitmap (8 * (i + 1) + q))
    → p < 8 * suc w
    → digit (get_or bitmap i 0 + 256 * r) p ≡ bit_at bitmap (8 * i + p)
unfolding bit_at
digits-suc bitmap i w r p bytes rest h = go p h
  where
    go : (q : ℕ) → q < 8 * suc w → digit (get_or bitmap i 0 + 256 * r) q ≡ bit_at bitmap (8 * i + q)
    go (suc (suc (suc (suc (suc (suc (suc (suc q)))))))) lt =
        let there : 8 * (i + 1) + q ≡ 8 * i + suc (suc (suc (suc (suc (suc (suc (suc q))))))) =
          omega arith in
        digit-concat_high (get_or bitmap i 0) r q (bytes i)
        ∙ rest q (omega arith)
        ∙ ap (bit_at bitmap) there
    go q lt =
        digit-concat_low (get_or bitmap i 0) r q (omega arith)
        ∙ sym (bit_at-byte bitmap i q (omega arith))

pub word_at-Loaded :
    (bitmap : BitMap) (i w : ℕ) → IsBytes bitmap → i + w ≤ length bitmap → Loaded bitmap i w
unfolding word_at
word_at-Loaded bitmap i zero bytes h = record {
  chunk = 0;
  loads = refl;
  small = omega arith;
  digits = λ p q. absurd (omega arith);
}
word_at-Loaded bitmap i (suc w) bytes h =
    let rest = word_at-Loaded bitmap (i + 1) w bytes (omega arith) in
    record {
      chunk = get_or bitmap i 0 + 256 * rest.chunk;
      loads = rw (word_at, get_elem?-eq-get_or bitmap i 0 (omega arith), rest.loads);
      small = omega (arith, bytes i, rest.small, pow_bytes-suc w);
      digits = λ p q. digits-suc bitmap i w rest.chunk p bytes rest.digits q;
    }

-- The same for a load of one byte.
pub byte-Loaded :
    (bitmap : BitMap) (i : ℕ)
    → IsBytes bitmap
    → i < length bitmap
    → (c : Loaded bitmap i 1) × (get_elem? bitmap i ≡ some c.chunk)
unfolding word_at
byte-Loaded bitmap i bytes h =
    let c = word_at-Loaded bitmap i 1 bytes (omega arith) in
    let byte = get_elem?-eq-get_or bitmap i 0 h in (c, ground (arith, c.loads, byte))
