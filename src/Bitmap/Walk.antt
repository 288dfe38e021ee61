-- ===== src/Bitmap/Walk.antt =====
-- The loop that the sources write over the occupied bits of a bitmap,
-- `for (bitidx = mcmchBitmapNextOccupiedBit(bitmap, 0, length); bitidx != -1;
--   bitidx = mcmchBitmapNextOccupiedBit(bitmap, bitidx + 1, length))`,
-- where the body may change the bitmap and may return from the function.
use mathlib.Core.Path.{subst}
use mcmp.Common.{
  ℕ, zero, suc, ◌+◌, ◌-◌, ◌*◌, ◌≤◌, ◌<◌, ◌≡◌, ◌≢◌, ◌⊎◌, refl, sym, ap, ◌∙◌, arith, inl, inr, true,
  false, Option, none, some, ◌==◌, if◌then◌else◌,
}
use mcmp.Bitmap.{BitMap, bit_at}
use mcmp.Bitmap.Scan.{Scan, found, missing, fault, hung, next_occupied_bit}
use mcmp.Bitmap.Scan.Exact.{IsStored, IsNextBit, next_occupied_bit-IsNextBit}

-- What the body does: it goes on to the next bit, or returns.
pub data Turn (S : Type 0) : Type 0 where
  goes : S → Turn S
  returns : S → Turn S

abbrev after_turn : {S : Type 0} → Turn S → (S → Option S) → Option S
after_turn (goes s) continue = continue s
after_turn (returns s) continue = some s

abbrev KeepsTurn : {S : Type 0} → (S → Type 0) → Turn S → Type 0
KeepsTurn Keeps (goes s) = Keeps s
KeepsTurn Keeps (returns s) = Unit

module _ {S : Type 0} (bits : S → BitMap) (len : ℕ) (body : ℕ → S → Turn S) where
  -- The loop from the result of a scan on. `none` is a scan that reads out of the bitmap, or a loop
  -- that has used up its fuel.
  unfoldable pub walk_from : (fuel : ℕ) → S → Scan → Option S
  walk_from zero s scan = none
  walk_from (suc fuel) s missing = some s
  walk_from (suc fuel) s (found bitidx) =
      after_turn (body bitidx s)
        (λ s'. walk_from fuel s' (next_occupied_bit (bits s') (bitidx + 1) len))
  walk_from (suc fuel) s _ = none

  -- The loop is never made more often than the bitmap has bits.
  unfoldable pub walk : S → Option S
  walk s = walk_from (8 * len + 1) s (next_occupied_bit (bits s) 0 len)

  -- The same by the bits, one after the other: `left` of them, from `k` on.
  unfoldable pub each_bit : (left k : ℕ) → S → S
  each_bit zero k s = s
  each_bit (suc left) k s =
      let rest = each_bit left (k + 1) s in
      if bit_at (bits s) k == 1
      then elim (body k s) [ goes s' ↦ each_bit left (k + 1) s' | returns s' ↦ s' ]
      else rest

  module _ (Keeps : S → Type 0) (stored : (s : S) → Keeps s → IsStored (bits s) len)
      (keeps : (i : ℕ) (s : S) → i < 8 * len → Keeps s → KeepsTurn Keeps (body i s)) where
    skips :
        (gap left k : ℕ) (s : S)
        → ((i : ℕ) → k ≤ i → i < k + gap → bit_at (bits s) i ≢ 1)
        → each_bit (gap + left) k s ≡ each_bit left (k + gap) s
    unfolding each_bit
    skips zero left k s clear =
        let same : k + 0 ≡ k = omega arith in
        let all : 0 + left ≡ left = omega arith in rw (same, all) refl
    skips (suc gap) left k s clear =
        let off : (bit_at (bits s) k == 1) ≡ false =
          ground (arith, clear k (omega arith) (omega arith)) in
        let less : suc gap + left ≡ suc (gap + left) = omega arith in
        let more : k + suc gap ≡ k + 1 + gap = omega arith in
        rw (less, more, off) (skips gap left (k + 1) s λ i a b. clear i (omega arith) (omega arith))

    turn_cases : (t : Turn S) → ((s : S) × (t ≡ goes s)) ⊎ ((s : S) × (t ≡ returns s))
    turn_cases (goes s) = inl (s, refl)
    turn_cases (returns s) = inr (s, refl)

    each_bit-goes :
        (left i : ℕ) (s s' : S)
        → bit_at (bits s) i ≡ 1
        → body i s ≡ goes s'
        → each_bit (suc left) i s ≡ each_bit left (i + 1) s'
    unfolding each_bit
    each_bit-goes left i s s' one e =
        let on : (bit_at (bits s) i == 1) ≡ true = ground (arith, one) in rw (on, e) refl

    each_bit-returns :
        (left i : ℕ) (s s' : S)
        → bit_at (bits s) i ≡ 1
        → body i s ≡ returns s'
        → each_bit (suc left) i s ≡ s'
    unfolding each_bit
    each_bit-returns left i s s' one e =
        let on : (bit_at (bits s) i == 1) ≡ true = ground (arith, one) in rw (on, e) refl

    to_found :
        (left lo i : ℕ) (s : S)
        → left + lo ≡ 8 * len
        → IsNextBit 1 (bits s) lo (8 * len) (found i)
        → each_bit left lo s ≡ each_bit (suc (8 * len - i - 1)) i s
    to_found left lo i s all f =
        let split : left ≡ i - lo + suc (8 * len - i - 1) = omega (arith, f.0, f.1) in
        let there : lo + (i - lo) ≡ i = omega (arith, f.0) in
        ap (λ n. each_bit n lo s) split
        ∙ skips (i - lo) (suc (8 * len - i - 1)) lo s (λ k a b. f.3 k a (omega (arith, f.0)))
        ∙ ap (λ n. each_bit (suc (8 * len - i - 1)) n s) there

    walk_from-each_bit :
        (fuel left lo : ℕ) (s : S) (r : Scan)
        → Keeps s
        → left + lo ≡ 8 * len
        → left < fuel
        → IsNextBit 1 (bits s) lo (8 * len) r
        → walk_from fuel s r ≡ some (each_bit left lo s)
    unfolding walk_from each_bit
    walk_from-each_bit zero left lo s r v all fuel_left f = absurd (omega arith)
    walk_from-each_bit (suc fuel) left lo s missing v all fuel_left f =
        let none_left : left + 0 ≡ left = omega arith in
        let over = skips left 0 lo s λ i a b. f i a (omega arith) in
        ap some (sym (rw none_left at over))
    walk_from-each_bit (suc fuel) left lo s (found i) v all fuel_left f =
        let to_here = to_found left lo i s all f in
        let rest = 8 * len - i - 1 in
        elim (turn_cases (body i s)) [
          | inl (s', e) ↦
              let v' : Keeps s' = subst (KeepsTurn Keeps) e (keeps i s f.1 v) in
              rw (to_here, each_bit-goes rest i s s' f.2 e, e)
                (walk_from-each_bit fuel rest (i + 1) s' _ v' (omega (arith, f.1))
                  (omega (arith, f.0, f.1))
                  (next_occupied_bit-IsNextBit (bits s') (i + 1) len (stored s' v')))
          | inr (s', e) ↦ rw (to_here, each_bit-returns rest i s s' f.2 e, e) refl
        ]
    walk_from-each_bit (suc fuel) left lo s fault v all fuel_left f = elim f [ ]
    walk_from-each_bit (suc fuel) left lo s hung v all fuel_left f = elim f [ ]

    -- The loop over the occupied bits ends, and does what a loop over all bits does that runs the body
    -- for those that are set when it comes to them.
    pub walk-each_bit : (s : S) → Keeps s → walk s ≡ some (each_bit (8 * len) 0 s)
    unfolding walk
    walk-each_bit s v =
        walk_from-each_bit (8 * len + 1) (8 * len) 0 s _ v (omega arith) (omega arith)
          (next_occupied_bit-IsNextBit (bits s) 0 len (stored s v))
