-- ===== src/Routines/SignalRoutine.antt =====
-- The loop of a signal routine: `mcmchSignalRoutineHandler` of routines/src/linux/routine.c.
pub mod Laws
pub mod Ends
mod Tests
use mcmp.Common.{ℕ, zero, suc, ◌+◌, Bool, true, false, not, ◌||◌, List, [], ◌∷◌, if◌then◌else◌}
use mcmp.Status.{Status, success, ovtimeout, not_implemented}
use mcmp.Routines.Timer.{TimeSpec, next_frame}

-- The argument of the handler.
pub data Signal : Type 0 where
  go_on shutdown error : Signal

-- What the loop does to the world: the mutex of the lock is taken and given back, and the handler is
-- called.
pub data Event : Type 0 where
  block : Event
  wait : (until : TimeSpec) → Event
  handle : Signal → Event
  unlock : Event

-- How one `pthread_cond_timedwait` goes: its result as `mcmchSignalLockTimedWait` maps it, the flag
-- `running` where the loop reads it next, and the clock where the loop reads it.
pub data Waited : Type 0 where
  signalled timed_out failed : Waited

pub record Turn : Type 0 where
  pub waited : Waited
  pub running : Bool
  pub clock : TimeSpec
  pub stays : Bool

-- `mcmchSignalLockTimedWait`
abbrev pub timed_wait : Waited → Status
timed_wait signalled = success
timed_wait timed_out = ovtimeout
timed_wait failed = not_implemented

-- What follows a wait, given the events of another wait and those of the outer loop.
abbrev pub woken : Status → Bool → List Event → List Event → List Event
woken success true waits_again served = handle go_on ∷ served
woken success false waits_again served = handle shutdown ∷ unlock ∷ []
woken ovtimeout true waits_again served = waits_again
woken ovtimeout false waits_again served = handle shutdown ∷ unlock ∷ []
woken _ running waits_again served = handle error ∷ handle shutdown ∷ unlock ∷ []

-- The outer loop, by the flag that it tests and the events of the inner one.
abbrev pub outer : Bool → List Event → List Event
outer false waits = []
outer true waits = block ∷ waits

-- The inner loop about to wait until `spec`, which is a local variable of the function and keeps its
-- value from one round of the outer loop to the next.
unfoldable pub inner : TimeSpec → List Turn → List Event
inner spec [] = wait spec ∷ []
inner spec (turn ∷ turns) =
    let waits_again = inner (next_frame turn.clock) turns in
    let waits_anew = inner spec turns in
    wait spec
    ∷ woken (timed_wait turn.waited) turn.running waits_again (outer turn.stays waits_anew)

-- `mcmchSignalRoutineHandler`, from the first test of `running` on.
unfoldable pub signal_routine : Bool → List Turn → List Event
signal_routine running turns = outer running (inner (record { secs = 0; nanos = 0 }) turns)
