-- ===== src/Routines/Timer.antt =====
-- The deadlines of routines/src/linux/routine.c and routines/src/common/consumer.c: half a second after
-- the clock, in seconds and nanoseconds.
mod Tests
use mcmp.Common.{ℕ, ◌+◌, ◌-◌, ◌*◌, ◌<◌, ◌≡◌, arith, inl, inr, leb, if◌then◌else◌, Bool-cases}

-- `McmpTimeSpec`, after the epoch of the clock.
pub record TimeSpec : Type 0 where
  pub secs : ℕ
  pub nanos : ℕ

-- `spec` after `mcmchTimeGetMonotanic` has stored `now` and the half second has been added.
unfoldable pub next_frame : TimeSpec → TimeSpec
next_frame now =
    let nanos = now.nanos + 500000000 in
    if leb 1000000000 nanos
    then record { secs = now.secs + 1; nanos = nanos - 1000000000 }
    else record { secs = now.secs; nanos = nanos }

abbrev pub in_nanos : TimeSpec → ℕ
in_nanos t = t.secs * 1000000000 + t.nanos

-- The deadline is half a second after a clock whose nanoseconds are below a second, and its own are
-- too, as `pthread_cond_timedwait` wants them.
pub next_frame_lem :
    (now : TimeSpec)
    → now.nanos < 1000000000
    → ((next_frame now).nanos < 1000000000) × (in_nanos (next_frame now) ≡ in_nanos now + 500000000)
unfolding next_frame
next_frame_lem now h = elim (Bool-cases (leb 1000000000 (now.nanos + 500000000))) [
  | inl carry ↦ rw carry (omega arith, ground arith)
  | inr stay ↦ rw stay (ground arith, omega arith)
]
