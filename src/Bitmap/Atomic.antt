-- ===== src/Bitmap/Atomic.antt =====
-- The functions of atomicbitmap.c on one bit. Each first loads the byte and then tries to exchange
-- it; `loaded` is the bitmap at the load and `current` at the exchange, since other threads may write
-- in between. The result is the status and the bitmap that is left.
use mcmp.Common.{
  ℕ, ◌+◌, ◌*◌, ◌/◌, ◌%◌, ◌^◌, ◌<◌, bit_and, bit_or, ◌≤◌, ◌≡◌, ◌≢◌, ◌↔◌, refl, sym, ap, ◌∙◌, inl,
  inr, Bool, List, [], ◌∷◌, true, false, not, arith, ◌==◌, if◌then◌else◌, Bool-cases, length,
  get_or, set,
}
use mcmp.Bits.{digit, digit-bit_or, digit-zero, digit-pow_self, invert}
use mcmp.Status.{Status, success, alrop, invop}
use mcmp.Bitmap.{BitMap, IsBytes, bit_at, enable_bit, disable_bit}
use mcmp.Bitmap.Laws.{bit_at-le, byte_test, bit_at-enable_bit}

-- `__atomic_compare_exchange_n` on one byte, the strong one.
abbrev pub exchange_byte : BitMap → ℕ → ℕ → ℕ → Bool × BitMap
exchange_byte current i expected desired =
    if get_or current i 0 == expected then (true, set current i desired) else (false, current)

abbrev exchanged : Bool × BitMap → Status × BitMap
exchanged (true, bitmap) = (success, bitmap)
exchanged (false, bitmap) = (invop, bitmap)

-- `mcmpAtomicBitmapTryEnableBit`
unfoldable pub try_enable_bit : BitMap → BitMap → ℕ → Status × BitMap
try_enable_bit loaded current idx =
    let byteval = get_or loaded (idx / 8) 0 in
    let mask = 2 ^ (idx % 8) in
    if not (bit_and byteval mask == 0)
    then (alrop, current)
    else exchanged (exchange_byte current (idx / 8) byteval (bit_or byteval mask))

-- `mcmpAtomicBitmapTryDisableBit`
unfoldable pub try_disable_bit : BitMap → BitMap → ℕ → Status × BitMap
try_disable_bit loaded current idx =
    let byteval = get_or loaded (idx / 8) 0 in
    let mask = invert 8 (2 ^ (idx % 8)) in
    if bit_or byteval (2 ^ (idx % 8)) == 0
    then (alrop, current)
    else exchanged (exchange_byte current (idx / 8) byteval (bit_and byteval mask))

-- `mcmpAtomicBitmapIsEnabledBit`
unfoldable pub atomic_is_enabled_bit : BitMap → ℕ → Bool
atomic_is_enabled_bit bitmap idx = not (bit_and (get_or bitmap (idx / 8) 0) (2 ^ (idx % 8)) == 0)

-- `mcmpAtomicBitmapIsDisabledBit`
unfoldable pub atomic_is_disabled_bit : BitMap → ℕ → Bool
atomic_is_disabled_bit bitmap idx = bit_and (get_or bitmap (idx / 8) 0) (2 ^ (idx % 8)) == 0

-- The outcome of an attempt on a bit: on success the bitmap is `written`, and otherwise unchanged.
abbrev pub Attempt : BitMap → BitMap → Status × BitMap → Type 0
Attempt current written (success, after) = after ≡ written
Attempt current written (_, after) = after ≡ current

or_pow-ne-zero : (b k : ℕ) → bit_or b (2 ^ k) ≢ 0
or_pow-ne-zero b k e = omega (arith, digit-bit_or b (2 ^ k) k, digit-pow_self k, at_zero)
  where
    at_zero : digit (bit_or b (2 ^ k)) k ≡ 0
    at_zero = rw e (digit-zero k)

module _ (loaded current : BitMap) (idx : ℕ) (bytes : IsBytes loaded) where
  same_byte :
      get_or current (idx / 8) 0 ≡ get_or loaded (idx / 8) 0
      → bit_at current idx ≡ bit_at loaded idx
  unfolding bit_at
  same_byte e = ap (λ (b : ℕ). digit b (idx % 8)) e

  -- `mcmpAtomicBitmapTryEnableBit` reports SUCCESS only where it has itself turned the bit from clear
  -- to set, leaving every other bit as it was at the exchange; it reports ALROP exactly when it loaded
  -- the bit set; and whenever it does not report SUCCESS it changes nothing, whatever other threads
  -- write between the load and the exchange. The bitmap at the load is of bytes.
  pub try_enable_bit_lem :
      (((try_enable_bit loaded current idx).0 ≡ success → bit_at current idx ≡ 0)
        × Attempt current (enable_bit current idx) (try_enable_bit loaded current idx))
      × (((try_enable_bit loaded current idx).0 ≡ alrop) ↔ (bit_at loaded idx ≢ 0))
  unfolding try_enable_bit enable_bit
  try_enable_bit_lem = elim (Bool-cases (bit_and byte mask == 0)) [
    | inl clear ↦
        let off : bit_at loaded idx ≡ 0 = (byte_test loaded idx bytes).0 (ground arith) in
        elim (Bool-cases (get_or current (idx / 8) 0 == byte)) [
          | inl same ↦
              let e : get_or current (idx / 8) 0 ≡ byte = ground arith in
              rw (clear, same)
                (
                  (
                    λ _. same_byte e ∙ off,
                    ap (λ (b : ℕ). set current (idx / 8) (bit_or b mask)) (sym e),
                  ),
                  (λ s. cc, λ ne. absurd (ne off)),
                )
          | inr differ ↦ rw (clear, differ) ((λ s. cc, refl), (λ s. cc, λ ne. absurd (ne off)))
        ]
    | inr held ↦ rw held (
      (λ s. cc, refl),
      (λ s off. absurd (ground (arith, (byte_test loaded idx bytes).1 off)), λ ne. refl),
    )
  ]
    where
      byte : ℕ
      byte = get_or loaded (idx / 8) 0

      mask : ℕ
      mask = 2 ^ (idx % 8)

-- `mcmpAtomicBitmapTryDisableBit` never reports ALROP. On a bitmap that nobody else writes to it
-- reports SUCCESS also for a bit that is clear already, and leaves the bitmap with the bit cleared.
pub try_disable_bit_lem :
    (loaded current : BitMap) (idx : ℕ)
    → ((try_disable_bit loaded current idx).0 ≢ alrop)
      × Attempt current (disable_bit current idx) (try_disable_bit loaded current idx)
      × (try_disable_bit current current idx ≡ (success, disable_bit current idx))
unfolding try_disable_bit disable_bit
try_disable_bit_lem loaded current idx =
    elim (Bool-cases (get_or current (idx / 8) 0 == get_or loaded (idx / 8) 0)) [
      | inl same ↦
          let e : get_or current (idx / 8) 0 ≡ get_or loaded (idx / 8) 0 = ground arith in
          rw (never loaded, never current, same, itself)
            (
              (λ s. cc),
              ap (λ (b : ℕ). set current (idx / 8) (bit_and b (invert 8 (2 ^ (idx % 8))))) (sym e),
              refl,
            )
      | inr differ ↦ rw (never loaded, never current, differ, itself) ((λ s. cc), refl, refl)
    ]
  where
    never : (bitmap : BitMap) → (bit_or (get_or bitmap (idx / 8) 0) (2 ^ (idx % 8)) == 0) ≡ false
    never bitmap = ground (arith, or_pow-ne-zero (get_or bitmap (idx / 8) 0) (idx % 8))

    itself : (get_or current (idx / 8) 0 == get_or current (idx / 8) 0) ≡ true
    itself = ground arith

-- The bitmap where an attempt loads its byte, and where it makes its exchange.
pub record Exchange : Type 0 where
  pub loaded : BitMap
  pub current : BitMap

-- How many of the threads that try to enable one bit report SUCCESS, in the order of their exchanges.
unfoldable pub wins : ℕ → List Exchange → ℕ
wins idx [] = 0
wins idx (x ∷ rest) =
    let (status, after) = try_enable_bit x.loaded x.current idx in
    let later = wins idx rest in elim status [ success ↦ 1 + later | _ ↦ later ]

-- Where each attempt finds the bitmap, any thread may have written to it since the attempt before, but
-- has not cleared the bit: `before` is what that attempt has left. The bit lies in the bitmap, and what
-- is loaded are bytes.
abbrev pub NobodyClears : (idx : ℕ) → (before : BitMap) → List Exchange → Type 0
NobodyClears idx before [] = Unit
NobodyClears idx before (x ∷ rest) =
    IsBytes x.loaded
    × (idx < 8 * length x.current)
    × (bit_at before idx ≤ bit_at x.current idx)
    × NobodyClears idx (try_enable_bit x.loaded x.current idx).1 rest

-- One attempt, and the later ones from what it leaves.
wins-Attempt :
    (current : BitMap) (idx later : ℕ) (r : Status × BitMap)
    → idx < 8 * length current
    → (r.0 ≡ success → bit_at current idx ≡ 0)
    → Attempt current (enable_bit current idx) r
    → bit_at r.1 idx + later ≤ 1
    → bit_at current idx + elim r.0 [ success ↦ 1 + later | _ ↦ later ] ≤ 1
wins-Attempt current idx later (success, after) inside off e h =
    let on : bit_at after idx ≡ 1 =
      rw e (ground (arith, bit_at-enable_bit current idx idx inside)) in
    omega (arith, off refl, on, h)
wins-Attempt current idx later (_, after) inside off e h = rw (← e) h

-- However the loads, the exchanges and any other writes to the bitmap interleave, at most one of the
-- threads that try to enable the same bit reports SUCCESS, and none does if the bit is set before, as
-- long as nobody clears it. The bit lies in the bitmap, and what the threads load are bytes.
pub wins-le_one :
    (idx : ℕ) (attempts : List Exchange) (before : BitMap)
    → NobodyClears idx before attempts
    → bit_at before idx + wins idx attempts ≤ 1
unfolding wins
wins-le_one idx [] before kept = omega (arith, bit_at-le before idx)
wins-le_one idx (x ∷ rest) before kept =
    let attempt = try_enable_bit_lem x.loaded x.current idx kept.0 in
    let later = wins-le_one idx rest (try_enable_bit x.loaded x.current idx).1 kept.3 in
    omega (
      arith,
      kept.2,
      wins-Attempt x.current idx (wins idx rest) (try_enable_bit x.loaded x.current idx) kept.1
          attempt.0.0 attempt.0.1 later,
    )

-- `mcmpAtomicBitmapIsEnabledBit` and `mcmpAtomicBitmapIsDisabledBit` tell the value of the bit.
pub atomic_tests_bit :
    (bitmap : BitMap) (idx : ℕ)
    → IsBytes bitmap
    → ((atomic_is_enabled_bit bitmap idx ≡ true) ↔ (bit_at bitmap idx ≡ 1))
      × ((atomic_is_disabled_bit bitmap idx ≡ true) ↔ (bit_at bitmap idx ≡ 0))
unfolding atomic_is_enabled_bit atomic_is_disabled_bit
atomic_tests_bit bitmap idx bytes = ground (arith, byte_test bitmap idx bytes, bit_at-le bitmap idx)
