-- ===== src/Routines/SignalRoutine/Laws.antt =====
-- The mutex of a signal routine.
use mcmp.Common.{◌≡◌, refl, Bool, true, false, Option, none, some, List, [], ◌∷◌}
use mcmp.Routines.Timer.{TimeSpec, next_frame}
use mcmp.Routines.SignalRoutine.{
  go_on, shutdown, error, Event, block, wait, handle, unlock, Waited, signalled, timed_out, failed,
  Turn, timed_wait, woken, outer, inner, signal_routine,
}

-- Whether the thread holds the mutex after some events, with a handler that gives it back when it is
-- called to go on, and only then. `none` is a thread that locks a mutex which it holds, or gives back
-- or waits with one which it does not hold.
abbrev pub lock_after : Bool → List Event → Option Bool
lock_after held [] = some held
lock_after false (block ∷ events) = lock_after true events
lock_after true (block ∷ events) = none
lock_after true (wait until ∷ events) = lock_after true events
lock_after false (wait until ∷ events) = none
lock_after true (handle go_on ∷ events) = lock_after false events
lock_after false (handle go_on ∷ events) = none
lock_after held (handle shutdown ∷ events) = lock_after held events
lock_after held (handle error ∷ events) = lock_after held events
lock_after true (unlock ∷ events) = lock_after false events
lock_after false (unlock ∷ events) = none

-- Whether the loop still waits after the turns, by the flag that it tests first.
abbrev pub goes_on : Waited → Bool → Bool → Bool → Bool
goes_on signalled true again anew = anew
goes_on timed_out true again anew = again
goes_on _ _ again anew = false

abbrev pub if_running : Bool → Bool → Bool
if_running true b = b
if_running false b = false

abbrev pub still_waits : List Turn → Bool
still_waits [] = true
still_waits (turn ∷ turns) =
    let rest = still_waits turns in
    goes_on turn.waited turn.running rest (if_running turn.stays rest)

outer-lock :
    (running waits : Bool) (events : List Event)
    → lock_after true events ≡ some waits
    → lock_after false (outer running events) ≡ some (if_running running waits)
outer-lock true waits events e = e
outer-lock false waits events e = refl

woken-lock :
    (waited : Waited) (running : Bool) (again anew : List Event) (waits_again waits_anew : Bool)
    → lock_after true again ≡ some waits_again
    → lock_after false anew ≡ some waits_anew
    → lock_after true (woken (timed_wait waited) running again anew)
      ≡ some (goes_on waited running waits_again waits_anew)
woken-lock signalled true again anew a b e f = f
woken-lock signalled false again anew a b e f = refl
woken-lock timed_out true again anew a b e f = e
woken-lock timed_out false again anew a b e f = refl
woken-lock failed true again anew a b e f = refl
woken-lock failed false again anew a b e f = refl

inner-lock :
    (turns : List Turn) (spec : TimeSpec)
    → lock_after true (inner spec turns) ≡ some (still_waits turns)
unfolding inner
inner-lock [] spec = refl
inner-lock (turn ∷ turns) spec =
    woken-lock turn.waited turn.running _ _ _ _ (inner-lock turns (next_frame turn.clock))
      (outer-lock turn.stays (still_waits turns) _ (inner-lock turns spec))

-- With a handler that gives the mutex back exactly when it is called with CONTINUE, the loop of a
-- signal routine never locks a mutex that it holds nor waits without it, whatever its waits return and
-- whenever `running` is cleared; it holds the mutex exactly while it still waits, and has given it
-- back when it returns.
pub signal_routine_lem :
    (running : Bool) (turns : List Turn)
    → lock_after false (signal_routine running turns)
      ≡ some (if_running running (still_waits turns))
unfolding signal_routine
signal_routine_lem running turns = outer-lock running (still_waits turns) _ (inner-lock turns _)
