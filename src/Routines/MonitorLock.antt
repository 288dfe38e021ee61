-- ===== src/Routines/MonitorLock.antt =====
-- The locks of routines/src/linux/monitor.c: a word that is 0 or names the monitor that holds it. A
-- thread without a monitor of its own counts as the main monitor.
pub mod Exclusion
pub mod Tries
mod Tests
use mcmp.Common.{
  ℕ, zero, suc, ◌+◌, ◌-◌, ◌*◌, ◌/◌, ◌%◌, ◌^◌, Bool, true, false, Option, none, some, ltb, ◌==◌,
  if◌then◌else◌,
}
use mcmp.Status.{Status, success, noavle}

-- `(mcmchmonitor == 0UL) ? mcmchmonitor_main : mcmchmonitor`
abbrev pub owner : ℕ → ℕ → ℕ
owner main monitor = if monitor == 0 then main else monitor

-- `mcmchMonitorLockAcquire` by a thread of `monitor`, on the word that its exchange finds.
unfoldable pub acquire : (main monitor word : ℕ) → Status × ℕ
acquire main monitor word = if word == 0 then (success, owner main monitor) else (noavle, word)

-- `mcmchMonitorLockRelease`
unfoldable pub release : (main monitor word : ℕ) → Status × ℕ
release main monitor word = if word == owner main monitor then (success, 0) else (noavle, word)

-- `((1ULL << (tries / 2ULL)) - 1) % 1024ULL` in 64 bits; a shift of 64 or more is undefined.
abbrev pub delay : ℕ → Option ℕ
delay tries =
    if ltb (tries / 2) 64 then some ((2 ^ (tries / 2) + (2 ^ 64 - 1)) % 2 ^ 64 % 1024) else none

-- What `mcmchMonitorLockTryAcquire` has done: how many calls of `CPU_RELAX` it made, and the word it
-- left where it got the lock. `undefined` is a shift that C does not define.
pub data Tried : Type 0 where
  acquired : (pauses word : ℕ) → Tried
  unavailable : (pauses : ℕ) → Tried
  undefined : Tried

abbrev pub after_delay : Option ℕ → Tried → Tried
after_delay none rest = undefined
after_delay (some pauses) (acquired more word) = acquired (pauses + more) word
after_delay (some pauses) (unavailable more) = unavailable (pauses + more)
after_delay (some pauses) undefined = undefined

abbrev pub attempted : Status × ℕ → Tried → Tried
attempted (success, word) retry = acquired 0 word
attempted (_, word) retry = retry

-- The loop of `mcmchMonitorLockTryAcquire` at `tries`, with `left` turns to go after this one. `words`
-- has the word that the exchange of each turn finds.
unfoldable pub try_loop : (main monitor : ℕ) → (ℕ → ℕ) → (left tries : ℕ) → Tried
try_loop main monitor words zero tries =
    attempted (acquire main monitor (words tries)) (after_delay (delay tries) (unavailable 0))
try_loop main monitor words (suc left) tries =
    let rest = try_loop main monitor words left (tries + 1) in
    attempted (acquire main monitor (words tries)) (after_delay (delay tries) rest)

-- `mcmchMonitorLockTryAcquire`; `ntries` is below 2 ^ 64 - 1, so `tries` does not wrap.
unfoldable pub try_acquire : (main monitor : ℕ) → (ℕ → ℕ) → (ntries : ℕ) → Tried
try_acquire main monitor words ntries = try_loop main monitor words ntries 0
