-- ===== src/Routines/Worker/Cleanup.antt =====
-- What the cleanup of a beat of the executor's monitor does.
use native.Mathlib.Decide.{ℕ_discrete}
use mcmp.Common.{
  ℕ, zero, suc, ◌+◌, ◌*◌, ◌≤◌, ◌<◌, ◌≡◌, ◌≢◌, refl, ap, arith, inl, inr, Bool, true, false, not,
  ◌&&◌, Option, none, some, leb, ◌==◌, if◌then◌else◌, Bool-cases, length, get_or,
}
use mcmp.Status.{Status}
use mcmp.Bitmap.{BitMap, bit_at, disable_bit}
use mcmp.Bitmap.Laws.{bit_at-le, bit_at-disable_bit, disable_bit-IsBytes, length-disable_bit}
use mcmp.Bitmap.Atomic.{try_disable_bit_lem}
use mcmp.Bitmap.Scan.{Scan, found, missing, fault, hung}
use mcmp.Bitmap.Scan.Exact.{IsStored, IsNextBit, atomic_next_occupied_bit-IsNextBit}
use mcmp.Routines.Worker.Sub.{Disabled, try_disable-Disabled}
use mcmp.Routines.Worker.{
  blank, Executor, next_occupied, quiet, after_try, try_disable, cleanup_loop, enough,
}

module _ {Q : Type 0} where
  -- The cleanup keeps the bitmap stored, the queue and the workers, and ends.
  abbrev pub Cleans : Executor Q → Option (Executor Q) → Type 0
  Cleans ex none = ⊥
  Cleans ex (some after) =
      IsStored after.bitmap after.bitmap_length
      × (after.queue ≡ ex.queue)
      × (after.workers ≡ ex.workers)
      × (after.size ≡ ex.size)
      × (after.bitmap_length ≡ ex.bitmap_length)

  disable-IsStored :
      (ex : Executor Q) (i : ℕ)
      → IsStored ex.bitmap ex.bitmap_length
      → IsStored (disable_bit ex.bitmap i) ex.bitmap_length
  disable-IsStored ex i ok = record {
    holds_bytes = disable_bit-IsBytes ex.bitmap i ok.holds_bytes;
    holds_len = omega (arith, length-disable_bit ex.bitmap i, ok.holds_len);
    fits = ok.fits;
  }

  -- Nobody else writes to the bitmap: the first attempt succeeds.
  try_disable-quiet :
      (ex : Executor Q) (i : ℕ) → try_disable (quiet ex) i 10 0 ≡ some (disable_bit ex.bitmap i)
  unfolding try_disable
  try_disable-quiet ex i = rw ((try_disable_bit_lem ex.bitmap ex.bitmap i).2) refl

  after_try-Cleans :
      (ex : Executor Q) (i : ℕ) (r : Option BitMap) (continue : Executor Q → Option (Executor Q))
      → IsStored ex.bitmap ex.bitmap_length
      → Disabled (quiet ex) i r
      → ((bitmap : BitMap)
          → IsStored bitmap ex.bitmap_length
          → Cleans ex (continue (record ex { bitmap = bitmap })))
      → Cleans ex (after_try ex r continue)
  after_try-Cleans ex i none continue ok d next = (ok, refl, refl, refl, refl)
  after_try-Cleans ex i (some bitmap) continue ok (k, e) next =
      next bitmap (rw e (disable-IsStored ex i ok))

  cleanup_loop-Cleans :
      (fuel : ℕ) (ex : Executor Q) (lo : ℕ) (r : Scan)
      → IsStored ex.bitmap ex.bitmap_length
      → 8 * ex.bitmap_length < fuel + lo
      → lo ≤ 8 * ex.bitmap_length
      → IsNextBit 1 ex.bitmap lo (8 * ex.bitmap_length) r
      → Cleans ex (cleanup_loop fuel ex r)
  unfolding cleanup_loop
  cleanup_loop-Cleans zero ex lo r ok fuel_left low f = absurd (omega arith)
  cleanup_loop-Cleans (suc fuel) ex lo missing ok fuel_left low f = (ok, refl, refl, refl, refl)
  cleanup_loop-Cleans (suc fuel) ex lo fault ok fuel_left low f = f
  cleanup_loop-Cleans (suc fuel) ex lo hung ok fuel_left low f = f
  cleanup_loop-Cleans (suc fuel) ex lo (found i) ok fuel_left low f =
      elim (Bool-cases (leb ex.size i)) [
        | inl beyond ↦ rw beyond (ok, refl, refl, refl, refl)
        | inr inside ↦ elim (Bool-cases (get_or ex.workers i blank).finished) [
          | inr busy ↦
              rw (inside, busy)
                (cleanup_loop-Cleans fuel ex (i + 1) _ ok (omega (arith, f.0)) (omega (arith, f.1))
                  (atomic_next_occupied_bit-IsNextBit ex.bitmap (i + 1) ex.bitmap_length ok))
          | inl idle ↦
              rw (inside, idle)
                (after_try-Cleans ex i _ _ ok (try_disable-Disabled (quiet ex) i 10 0)
                  λ bitmap stored.
                    cleanup_loop-Cleans fuel (record ex { bitmap = bitmap }) (i + 1) _ stored
                      (omega (arith, f.0)) (omega (arith, f.1))
                      (atomic_next_occupied_bit-IsNextBit bitmap (i + 1) ex.bitmap_length stored))
        ]
      ]

  -- The bits that the cleanup clears from `lo` on: those of workers that have finished.
  abbrev pub due : Executor Q → (lo k : ℕ) → Bool
  due ex lo k = leb lo k && not (leb ex.size k) && (get_or ex.workers k blank).finished

  -- If there is a cleanup from `lo` on, as `on` says, it clears the bits that are due, no others, and
  -- does not ask for another.
  abbrev pub Clears : (on : Bool) → Executor Q → (lo : ℕ) → Option (Executor Q) → Type 0
  Clears on ex lo none = ⊥
  Clears on ex lo (some after) =
      (after.failstry ≡ ex.failstry)
      × ((k : ℕ)
          → k < 8 * ex.bitmap_length
          → bit_at after.bitmap k ≡ (if on && due ex lo k then 0 else bit_at ex.bitmap k))

  -- The bit of one worker is cleared or passed over, and the cleanup goes on from the next.
  Clears-after_try :
      (ex : Executor Q) (lo i : ℕ) (bitmap : BitMap) (r : Option (Executor Q))
      → lo ≤ i
      → i < ex.size
      → ((k : ℕ) → lo ≤ k → k < i → bit_at ex.bitmap k ≢ 1)
      → ((k : ℕ)
          → k < 8 * ex.bitmap_length
          → bit_at bitmap k
            ≡ (if (i == k) && (get_or ex.workers k blank).finished then 0 else bit_at ex.bitmap k))
      → Clears true (record ex { bitmap = bitmap }) (i + 1) r
      → Clears true ex lo r
  Clears-after_try ex lo i bitmap none low inside before here c = c
  Clears-after_try ex lo i bitmap (some after) low inside before here (f, bits) =
      (f, λ k h. ground (arith, bits k h, here k h, before k, bit_at-le ex.bitmap k))

  -- The bits once that of worker `i` has been passed over or cleared, as it has finished or not.
  passed_bit :
      (ex : Executor Q) (i k : ℕ)
      → (get_or ex.workers i blank).finished ≡ false
      → bit_at ex.bitmap k
        ≡ (if (i == k) && (get_or ex.workers k blank).finished then 0 else bit_at ex.bitmap k)
  passed_bit ex i k busy = elim (ℕ_discrete i k) [
    | yes e ↦ ground (arith, ap (λ (j : ℕ). (get_or ex.workers j blank).finished) e, busy)
    | no differ ↦ ground (arith, differ)
  ]

  cleared_bit :
      (ex : Executor Q) (i k : ℕ)
      → i < 8 * length ex.bitmap
      → (get_or ex.workers i blank).finished ≡ true
      → bit_at (disable_bit ex.bitmap i) k
        ≡ (if (i == k) && (get_or ex.workers k blank).finished then 0 else bit_at ex.bitmap k)
  cleared_bit ex i k inside idle =
      let bits = bit_at-disable_bit ex.bitmap i k inside in
      elim (ℕ_discrete i k) [
        | yes e ↦ ground (arith, ap (λ (j : ℕ). (get_or ex.workers j blank).finished) e, idle, bits)
        | no differ ↦ ground (arith, differ, bits)
      ]

  cleanup_loop-Clears :
      (fuel : ℕ) (ex : Executor Q) (lo : ℕ) (r : Scan)
      → IsStored ex.bitmap ex.bitmap_length
      → 8 * ex.bitmap_length < fuel + lo
      → lo ≤ 8 * ex.bitmap_length
      → IsNextBit 1 ex.bitmap lo (8 * ex.bitmap_length) r
      → Clears true ex lo (cleanup_loop fuel ex r)
  unfolding cleanup_loop
  cleanup_loop-Clears zero ex lo r ok fuel_left low f = absurd (omega arith)
  cleanup_loop-Clears (suc fuel) ex lo missing ok fuel_left low f =
      (refl, λ k h. ground (arith, f k, bit_at-le ex.bitmap k))
  cleanup_loop-Clears (suc fuel) ex lo fault ok fuel_left low f = f
  cleanup_loop-Clears (suc fuel) ex lo hung ok fuel_left low f = f
  cleanup_loop-Clears (suc fuel) ex lo (found i) ok fuel_left low f =
      elim (Bool-cases (leb ex.size i)) [
        | inl beyond ↦ rw beyond (refl, λ k h. ground (arith, f.3 k, bit_at-le ex.bitmap k, beyond))
        | inr inside ↦ elim (Bool-cases (get_or ex.workers i blank).finished) [
          | inr busy ↦
              rw (inside, busy)
                (Clears-after_try ex lo i ex.bitmap _ f.0 (ground arith) f.3
                  (λ k h. passed_bit ex i k busy)
                  (cleanup_loop-Clears fuel ex (i + 1) _ ok (omega (arith, f.0))
                    (omega (arith, f.1))
                    (atomic_next_occupied_bit-IsNextBit ex.bitmap (i + 1) ex.bitmap_length ok)))
          | inl idle ↦
              let bitmap = disable_bit ex.bitmap i in
              let stored = disable-IsStored ex i ok in
              rw (inside, idle, try_disable-quiet ex i)
                (Clears-after_try ex lo i bitmap _ f.0 (ground arith) f.3
                  (λ k h. cleared_bit ex i k (omega (arith, f.1, ok.holds_len)) idle)
                  (cleanup_loop-Clears fuel (record ex { bitmap = bitmap }) (i + 1) _ stored
                    (omega (arith, f.0)) (omega (arith, f.1))
                    (atomic_next_occupied_bit-IsNextBit bitmap (i + 1) ex.bitmap_length stored)))
        ]
      ]

  module _ (take : Q → Q × Status × Option ℕ) where
    pub start_cleanup-Cleans :
        (ex : Executor Q)
        → IsStored ex.bitmap ex.bitmap_length
        → (let cleared : Executor Q = record ex { failstry = false } in
            Cleans cleared (
              if ex.failstry
              then cleanup_loop (enough take ex) cleared (next_occupied cleared 0)
              else some cleared))
    start_cleanup-Cleans ex ok = elim (Bool-cases ex.failstry) [
      | inl flag ↦ rw flag (
          cleanup_loop-Cleans (enough take ex) (record ex { failstry = false }) 0 _ ok (omega arith)
            (omega arith) (atomic_next_occupied_bit-IsNextBit ex.bitmap 0 ex.bitmap_length ok))
      | inr no_flag ↦ rw no_flag (ok, refl, refl, refl, refl)
    ]

    pub start_cleanup-Clears :
        (ex : Executor Q)
        → IsStored ex.bitmap ex.bitmap_length
        → (let cleared : Executor Q = record ex { failstry = false } in
            Clears ex.failstry cleared 0 (
              if ex.failstry
              then cleanup_loop (enough take ex) cleared (next_occupied cleared 0)
              else some cleared))
    start_cleanup-Clears ex ok = elim (Bool-cases ex.failstry) [
      | inl flag ↦ rw flag (
          cleanup_loop-Clears (enough take ex) (record ex { failstry = false }) 0 _ ok (omega arith)
            (omega arith) (atomic_next_occupied_bit-IsNextBit ex.bitmap 0 ex.bitmap_length ok))
      | inr no_flag ↦ rw no_flag (refl, λ k h. refl)
    ]
