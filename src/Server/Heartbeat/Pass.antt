-- ===== src/Server/Heartbeat/Pass.antt =====
-- What the pass that drops the clients comes to.
use mcmp.Common.{
  ℕ, ◌*◌, ◌≤◌, ◌<◌, ◌≡◌, ◌≢◌, ◌⊎◌, refl, inl, inr, arith, true, false, ◌==◌, Bool-cases,
}
use mcmp.Status.{noavle, not_implemented}
use mcmp.Bitmap.{bit_at}
use mcmp.Bitmap.Scan.{Scan, found, missing, fault, hung}
use mcmp.Bitmap.Scan.Exact.{IsStored, IsNextBit, next_occupied_bit-IsNextBit}
use mcmp.Routines.MonitorLock.{owner, release, Tried, acquired, unavailable, undefined}
use mcmp.Routines.MonitorLock.Tries.{Tries, try_acquire-Tries}
use mcmp.Server.Heartbeat.{
  Heartbeat, Processed, refused, finished, dereferences, crashed, dropped, locked,
  process_if_available,
}

module _ (main monitor : ℕ) (words : ℕ → ℕ) (len : ℕ) (heartbeat : Heartbeat) where
  open heartbeat use {lock, available, bitmap}

  -- What the pass promises on each of its ways out.
  abbrev pub Processes : Processed → Type 0
  Processes (refused status after) =
      ((status ≡ noavle) × (after ≡ heartbeat) × ((i : ℕ) → i ≤ 16 → words i ≢ 0))
      ⊎ ((status ≡ not_implemented) × (available ≡ false) × (after ≡ record heartbeat { lock = 0 }))
  Processes (finished after) =
      (available ≡ true)
      × (after ≡ record heartbeat { lock = 0; available = false })
      × ((i : ℕ) → i < 8 * len → bit_at bitmap i ≢ 1)
  Processes (dereferences i) = (available ≡ true) × (i < 8 * len) × (bit_at bitmap i ≡ 1)
  Processes crashed = ⊥

  freed : (word : ℕ) → word ≡ owner main monitor → (release main monitor word).1 ≡ 0
  unfolding release
  freed word e = let own : (word == owner main monitor) ≡ true = ground (arith, e) in rw own refl

  dropped-Processes :
      (word : ℕ) (r : Scan)
      → word ≡ owner main monitor
      → available ≡ true
      → IsNextBit 1 bitmap 0 (8 * len) r
      → Processes (dropped main monitor (record heartbeat { lock = word }) r)
  dropped-Processes word missing e on f = (on, rw (freed word e) refl, λ i h. f i (omega arith) h)
  dropped-Processes word (found i) e on f = (on, f.1, f.2)
  dropped-Processes word fault e on f = f
  dropped-Processes word hung e on f = f

  locked-Processes :
      (t : Tried)
      → IsStored bitmap len
      → Tries main monitor words 16 0 t
      → Processes (locked main monitor len heartbeat t)
  locked-Processes (acquired pauses word) ok t = elim (Bool-cases available) [
    | inl on ↦
        simp on (dropped-Processes word _ t.0 on (next_occupied_bit-IsNextBit bitmap 0 len ok))
    | inr off ↦ simp off (rw (freed word t.0) (inr (refl, refl, refl)))
  ]
  locked-Processes (unavailable pauses) ok t =
      inl (refl, refl, λ i h. t.1 i (omega arith) (omega arith))
  locked-Processes undefined ok t = t

  -- `mcmchHeartbeatProcessIfAvaible` returns. Where none of its 17 tries finds the lock free it reports
  -- NOAVLE and changes nothing. Otherwise it has released the lock again: with NOT_IMPLEMENTED where
  -- no sweep has been made; and where one has, with the flag AVAILABLE cleared, if no client is
  -- marked. If one is marked, it calls mcmchClientClose with the client NULL.
  pub process_if_available_lem :
      IsStored bitmap len → Processes (process_if_available main monitor words len heartbeat)
  unfolding process_if_available
  process_if_available_lem ok =
      locked-Processes _ ok (try_acquire-Tries main monitor words 16 (omega arith))
