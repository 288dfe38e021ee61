-- ===== src/Routines/MonitorLock/Tries.antt =====
-- `mcmchMonitorLockTryAcquire` against what the exchanges of its turns find.
use mcmp.Common.{
  ℕ, zero, suc, ◌+◌, ◌-◌, ◌*◌, ◌/◌, ◌%◌, ◌^◌, ◌≤◌, ◌<◌, ◌≡◌, ◌≢◌, refl, inl, inr, arith, true,
  false, some, ltb, ◌==◌, Bool-cases,
}
use native.Mathlib.Nat.{mod-lt}
use native.Mathlib.Decide.{ℕ_discrete}
use mcmp.Routines.MonitorLock.{
  owner, acquire, delay, Tried, acquired, unavailable, undefined, after_delay, try_loop,
  try_acquire,
}

-- What the turns from `tries` on promise, when `left` turns follow the first.
abbrev pub Tries : (main monitor : ℕ) → (ℕ → ℕ) → (left tries : ℕ) → Tried → Type 0
Tries main monitor words left tries (acquired pauses word) =
    (word ≡ owner main monitor)
    × ((k : ℕ) × (tries ≤ k)
        × (k ≤ tries + left)
        × (words k ≡ 0)
        × (pauses ≤ 1023 * (k - tries))
        × ((i : ℕ) → tries ≤ i → i < k → words i ≢ 0))
Tries main monitor words left tries (unavailable pauses) =
    (pauses ≤ 1023 * (left + 1)) × ((i : ℕ) → tries ≤ i → i ≤ tries + left → words i ≢ 0)
Tries main monitor words left tries undefined = ⊥

delay-small : (tries : ℕ) → tries < 128 → (d : ℕ) × (delay tries ≡ some d) × (d ≤ 1023)
delay-small tries h =
    let inside : ltb (tries / 2) 64 ≡ true = ground arith in
    (
      (2 ^ (tries / 2) + (2 ^ 64 - 1)) % 2 ^ 64 % 1024,
      rw inside refl,
      omega (arith, mod-lt ((2 ^ (tries / 2) + (2 ^ 64 - 1)) % 2 ^ 64) {m = 1024} (omega arith)),
    )

module _ (main monitor : ℕ) (words : ℕ → ℕ) where
  after_delay-Tries :
      (left tries d : ℕ) (r : Tried)
      → d ≤ 1023
      → words tries ≢ 0
      → Tries main monitor words left (tries + 1) r
      → Tries main monitor words (suc left) tries (after_delay (some d) r)
  after_delay-Tries left tries d (acquired pauses word) small busy v =
      let (k, low, high, free, few, before) = v.1 in
      (
        v.0,
        (
          k,
          omega arith,
          omega arith,
          free,
          omega arith,
          λ i a b. elim (ℕ_discrete tries i) [
            | yes same ↦ rw (← same) busy
            | no differ ↦ before i (omega arith) b
          ],
        ),
      )
  after_delay-Tries left tries d (unavailable pauses) small busy v = (
    omega (arith, v.0),
    λ i a b. elim (ℕ_discrete tries i) [
      | yes same ↦ rw (← same) busy
      | no differ ↦ v.1 i (omega arith) (omega arith)
    ],
  )
  after_delay-Tries left tries d undefined small busy v = v

  try_loop-Tries :
      (left tries : ℕ)
      → tries + left < 128
      → Tries main monitor words left tries (try_loop main monitor words left tries)
  unfolding try_loop acquire
  try_loop-Tries zero tries h = elim (Bool-cases (words tries == 0)) [
    | inl free ↦ rw free (
      refl,
      (tries, omega arith, omega arith, ground arith, omega arith, λ i a b. absurd (omega arith)),
    )
    | inr busy ↦
        let (d, e, small) = delay-small tries (omega arith) in
        rw (busy, e) (omega arith, λ i a b. same_turn i (omega arith) busy)
  ]
    where
      same_turn : (i : ℕ) → tries ≡ i → (words tries == 0) ≡ false → words i ≢ 0
      same_turn i same busy = rw (← same) (λ z. ground arith)
  try_loop-Tries (suc left) tries h = elim (Bool-cases (words tries == 0)) [
    | inl free ↦ rw free (
      refl,
      (tries, omega arith, omega arith, ground arith, omega arith, λ i a b. absurd (omega arith)),
    )
    | inr busy ↦
        let (d, e, small) = delay-small tries (omega arith) in
        rw (busy, e)
          (after_delay-Tries left tries d _ small (λ z. ground arith)
            (try_loop-Tries left (tries + 1) (omega arith)))
  ]

  -- `mcmchMonitorLockTryAcquire` with fewer than 128 retries returns: with the lock in the first of
  -- its `ntries + 1` turns that finds the word 0, or with NOAVLE where all of them find the lock
  -- held. It pauses less than 1024 times in each turn.
  pub try_acquire-Tries :
      (ntries : ℕ)
      → ntries < 128
      → Tries main monitor words ntries 0 (try_acquire main monitor words ntries)
  unfolding try_acquire
  try_acquire-Tries ntries h = try_loop-Tries ntries 0 (omega arith)
