-- ===== src/Routines/Worker/Beat.antt =====
-- What a beat of the executor's monitor does.
use mathlib.Core.Path.{subst}
use mcmp.Common.{
  ℕ, zero, suc, ◌+◌, ◌*◌, ◌≤◌, ◌<◌, ◌≡◌, ◌≢◌, ◌⊎◌, refl, sym, ap, arith, inl, inr, true, false,
  Option, none, some, List, [], ◌∷◌, leb, Bool-cases, get_or,
}
use mcmp.Status.{Status, success}
use mcmp.Bitmap.{BitMap, bit_at}
use mcmp.Bitmap.Laws.{bit_at-le}
use mcmp.Bitmap.Scan.{Scan, found, missing, fault, hung}
use mcmp.Bitmap.Scan.Exact.{IsStored, IsNextBit, atomic_next_available_bit-IsNextBit}
use mcmp.Routines.Worker.Cleanup.{Cleans, start_cleanup-Cleans, Clears, start_cleanup-Clears}
use mcmp.Routines.Worker.{
  blank, Executor, next_available, Act, ping, give, Beaten, done, crashed, prepend, hand, given,
  beat_loop, enough, beat_after, beat,
}

-- The bits of the workers from `lo` up to `hi` are set.
abbrev AllSet : BitMap → (lo hi : ℕ) → Type 0
AllSet bitmap lo hi = (k : ℕ) → lo ≤ k → k < hi → bit_at bitmap k ≡ 1

module _ {Q : Type 0} (take : Q → Q × Status × Option ℕ) where
  -- A take that gives no task.
  abbrev Refuses : Q × Status × Option ℕ → Type 0
  Refuses (queue, success, some task) = ⊥
  Refuses (queue, status, task) = Unit

  -- Where a beat that has looked at the workers below `lo` stops: at the end of the workers, all the
  -- rest of which have their bit set; or at the first one left whose bit is clear, which has finished
  -- and to which the queue refuses a task.
  abbrev Stops : Executor Q → ℕ → Executor Q → Type 0
  Stops ex lo after =
      ((after.queue ≡ ex.queue)
        × ((k : ℕ) → lo ≤ k → k < ex.size → k < 8 * ex.bitmap_length → bit_at ex.bitmap k ≡ 1))
      ⊎ ((after.queue ≡ (take ex.queue).0)
          × Refuses (take ex.queue)
          × ((i : ℕ) × (lo ≤ i)
              × (i < ex.size)
              × AllSet ex.bitmap lo i
              × (bit_at ex.bitmap i ≡ 0)
              × ((get_or ex.workers i blank).finished ≡ true)))

  -- The acts from bit `lo` on, which end in `after`: each is on the next worker whose bit is clear, all
  -- those between having theirs set; it is a ping alone for a worker that has not finished, and a task
  -- for one that has; the tasks are what the queue gives, in order; and nothing but the workers to
  -- which tasks are given and the queue changes.
  abbrev Serves : Executor Q → ℕ → List Act → Executor Q → Type 0
  Serves ex lo [] after = (after.workers ≡ ex.workers) × Stops ex lo after
  Serves ex lo (ping i ∷ acts) after =
      (lo ≤ i)
      × (i < ex.size)
      × AllSet ex.bitmap lo i
      × (bit_at ex.bitmap i ≡ 0)
      × ((get_or ex.workers i blank).finished ≡ false)
      × Serves ex (i + 1) acts after
  Serves ex lo (give i task ∷ acts) after =
      (lo ≤ i)
      × (i < ex.size)
      × AllSet ex.bitmap lo i
      × (bit_at ex.bitmap i ≡ 0)
      × ((get_or ex.workers i blank).finished ≡ true)
      × ((take ex.queue).1 ≡ success)
      × ((take ex.queue).2 ≡ some task)
      × Serves (hand ex i task (take ex.queue).0) (i + 1) acts after

  abbrev Beats : Executor Q → ℕ → Beaten Q → Type 0
  Beats ex lo (done acts after) = Serves ex lo acts after × (after.bitmap ≡ ex.bitmap)
  Beats ex lo crashed = ⊥

  -- The next worker whose bit is clear.
  abbrev IsNextFree : Executor Q → (lo i : ℕ) → Type 0
  IsNextFree ex lo i = (lo ≤ i) × (i < ex.size) × AllSet ex.bitmap lo i × (bit_at ex.bitmap i ≡ 0)

  prepend-ping :
      (ex : Executor Q) (lo i : ℕ) (r : Beaten Q)
      → IsNextFree ex lo i
      → (get_or ex.workers i blank).finished ≡ false
      → Beats ex (i + 1) r
      → Beats ex lo (prepend (ping i) r)
  prepend-ping ex lo i (done acts after) n d v = ((n.0, n.1, n.2, n.3, d, v.0), v.1)
  prepend-ping ex lo i crashed n d v = v

  prepend-give :
      (ex : Executor Q) (lo i task : ℕ) (r : Beaten Q)
      → IsNextFree ex lo i
      → (get_or ex.workers i blank).finished ≡ true
      → (take ex.queue).1 ≡ success
      → (take ex.queue).2 ≡ some task
      → Beats (hand ex i task (take ex.queue).0) (i + 1) r
      → Beats ex lo (prepend (give i task) r)
  prepend-give ex lo i task (done acts after) n d s t v = ((n.0, n.1, n.2, n.3, d, s, t, v.0), v.1)
  prepend-give ex lo i task crashed n d s t v = v

  -- The loop ends at a worker that has finished, as the queue refuses.
  refused-Beats :
      (ex : Executor Q) (lo i : ℕ) (t : Q × Status × Option ℕ)
      → t ≡ take ex.queue
      → IsNextFree ex lo i
      → (get_or ex.workers i blank).finished ≡ true
      → Refuses t
      → Beats ex lo (done [] (record ex { queue = t.0 }))
  refused-Beats ex lo i t e n d refuses =
      let left : t.0 ≡ (take ex.queue).0 = ap (λ (p : Q × Status × Option ℕ). p.0) e in
      ((refl, inr (left, subst Refuses e refuses, (i, n.0, n.1, n.2, n.3, d))), refl)

  -- A worker that has finished: it gets what the queue gives, or the loop ends.
  given-Beats :
      (ex : Executor Q) (lo i : ℕ) (t : Q × Status × Option ℕ) (continue : Executor Q → Beaten Q)
      → t ≡ take ex.queue
      → IsNextFree ex lo i
      → (get_or ex.workers i blank).finished ≡ true
      → ((task : ℕ) (queue : Q)
          → Beats (hand ex i task queue) (i + 1) (continue (hand ex i task queue)))
      → Beats ex lo (given ex i t continue)
  given-Beats ex lo i (queue, success, some task) continue e n d next =
      let left : (take ex.queue).0 ≡ queue = ap (λ (p : Q × Status × Option ℕ). p.0) (sym e) in
      prepend-give ex lo i task (continue (hand ex i task queue)) n d
        (ap (λ (p : Q × Status × Option ℕ). p.1) (sym e))
        (ap (λ (p : Q × Status × Option ℕ). p.2) (sym e)) (rw left (next task queue))
  given-Beats ex lo i (queue, success, none) continue e n d next =
      refused-Beats ex lo i (queue, success, none) e n d tt
  given-Beats ex lo i (queue, _, task) continue e n d next =
      refused-Beats ex lo i (queue, _, task) e n d tt

  set_bits : (bitmap : BitMap) (k : ℕ) → bit_at bitmap k ≢ 0 → bit_at bitmap k ≡ 1
  set_bits bitmap k h = omega (arith, bit_at-le bitmap k, h)

  beat_loop-Beats :
      (fuel : ℕ) (ex : Executor Q) (lo : ℕ) (r : Scan)
      → IsStored ex.bitmap ex.bitmap_length
      → 8 * ex.bitmap_length < fuel + lo
      → lo ≤ 8 * ex.bitmap_length
      → IsNextBit 0 ex.bitmap lo (8 * ex.bitmap_length) r
      → Beats ex lo (beat_loop take fuel ex r)
  unfolding beat_loop
  beat_loop-Beats zero ex lo r ok fuel_left low f = absurd (omega arith)
  beat_loop-Beats (suc fuel) ex lo missing ok fuel_left low f =
      ((refl, inl (refl, λ k a b c. set_bits ex.bitmap k (f k a c))), refl)
  beat_loop-Beats (suc fuel) ex lo fault ok fuel_left low f = f
  beat_loop-Beats (suc fuel) ex lo hung ok fuel_left low f = f
  beat_loop-Beats (suc fuel) ex lo (found i) ok fuel_left low f =
      let between : AllSet ex.bitmap lo i = λ k a b. set_bits ex.bitmap k (f.3 k a b) in
      elim (Bool-cases (leb ex.size i)) [
        | inl beyond ↦ rw beyond ((refl, inl (refl, λ k a b c. between k a (ground arith))), refl)
        | inr inside ↦ elim (Bool-cases (get_or ex.workers i blank).finished) [
          | inr busy ↦
              rw (inside, busy)
                (prepend-ping ex lo i _ (f.0, ground arith, between, f.2) busy
                  (beat_loop-Beats fuel ex (i + 1) _ ok (omega (arith, f.0)) (omega (arith, f.1))
                    (atomic_next_available_bit-IsNextBit ex.bitmap (i + 1) ex.bitmap_length ok)))
          | inl idle ↦
              rw (inside, idle)
                (given-Beats ex lo i (take ex.queue) _ refl (f.0, ground arith, between, f.2) idle
                  λ task queue.
                    beat_loop-Beats fuel (hand ex i task queue) (i + 1) _ ok (omega (arith, f.0))
                      (omega (arith, f.1))
                      (atomic_next_available_bit-IsNextBit ex.bitmap (i + 1) ex.bitmap_length ok))
        ]
      ]

  -- What a beat promises: after the cleanup, if `failstry` asks for one, its acts serve the workers.
  abbrev pub IsServed : Executor Q → Beaten Q → Type 0
  IsServed ex crashed = ⊥
  IsServed ex (done acts after) =
      (from : Executor Q) × Cleans ex (some from)
      × Clears ex.failstry (record ex { failstry = false }) 0 (some from)
      × Serves from 0 acts after
      × (after.bitmap ≡ from.bitmap)

  beat_after-IsServed :
      (ex : Executor Q) (r : Option (Executor Q))
      → Cleans ex r
      → Clears ex.failstry (record ex { failstry = false }) 0 r
      → IsServed ex (beat_after take r)
  beat_after-IsServed ex (some from) c b =
      served (beat_loop take (enough take from) from (next_available from 0)) (
        beat_loop-Beats (enough take from) from 0 _ c.0 (omega arith) (omega arith)
          (atomic_next_available_bit-IsNextBit from.bitmap 0 from.bitmap_length c.0))
    where
      served : (r : Beaten Q) → Beats from 0 r → IsServed ex r
      served (done acts after) v = (from, c, b, v.0, v.1)
      served crashed v = v
  beat_after-IsServed ex none c b = c

  pub beat-IsServed :
      (ex : Executor Q) → IsStored ex.bitmap ex.bitmap_length → IsServed ex (beat take ex)
  unfolding beat
  beat-IsServed ex ok =
      beat_after-IsServed ex _ (start_cleanup-Cleans take ex ok) (start_cleanup-Clears take ex ok)
