-- ===== src/Routines/SignalRoutine/Ends.antt =====
-- How a signal routine that is interrupted ends.
use mcmp.Common.{
  ℕ, suc, ◌+◌, ◌≤◌, ◌<◌, ◌≡◌, refl, ap, ◌∙◌, arith, Bool, true, false, some, List, [], ◌∷◌, ◌++◌,
  length,
}
use mcmp.Routines.Timer.{TimeSpec, next_frame, in_nanos, next_frame_lem}
use mcmp.Routines.SignalRoutine.{
  go_on, shutdown, error, Event, wait, handle, unlock, Waited, signalled, timed_out, failed, Turn,
  timed_wait, woken, outer, inner, signal_routine,
}
use mcmp.Routines.SignalRoutine.Laws.{
  lock_after, goes_on, if_running, still_waits, signal_routine_lem,
}

-- How often the thread waits, and how often its handler is called with SHUTDOWN.
abbrev pub waits : List Event → ℕ
waits [] = 0
waits (wait until ∷ events) = suc (waits events)
waits (_ ∷ events) = waits events

abbrev pub shutdowns : List Event → ℕ
shutdowns [] = 0
shutdowns (handle shutdown ∷ events) = suc (shutdowns events)
shutdowns (_ ∷ events) = shutdowns events

-- The clock that a turn reads is one, and no later than `bound`.
abbrev pub IsBefore : ℕ → Turn → Type 0
IsBefore bound turn = (turn.clock.nanos < 1000000000) × (in_nanos turn.clock ≤ bound)

abbrev pub AllBefore : ℕ → List Turn → Type 0
AllBefore bound [] = Unit
AllBefore bound (turn ∷ turns) = IsBefore bound turn × AllBefore bound turns

-- No wait is until a time more than half a second later than `bound`.
abbrev pub AllDue : ℕ → List Event → Type 0
AllDue bound [] = Unit
AllDue bound (wait until ∷ events) = (in_nanos until ≤ bound + 500000000) × AllDue bound events
AllDue bound (_ ∷ events) = AllDue bound events

-- Events with few waits, each until half a second after `bound` at the latest, and at most one SHUTDOWN.
pub record IsBrief (bound tries : ℕ) (events : List Event) : Type 0 where
  pub few : waits events ≤ tries
  pub once : shutdowns events ≤ 1
  pub due : AllDue bound events

nothing-IsBrief : (bound tries : ℕ) → IsBrief bound tries []
nothing-IsBrief bound tries = record { few = ground arith; once = ground arith; due = tt }

handle-IsBrief :
    (bound tries : ℕ) (events : List Event)
    → IsBrief bound tries events
    → IsBrief bound tries (handle go_on ∷ events)
handle-IsBrief bound tries events v = record { few = v.few; once = v.once; due = v.due }

-- What ends the inner loop.
ended-IsBrief :
    (bound tries : ℕ)
    → IsBrief bound tries (handle shutdown ∷ unlock ∷ [])
      × IsBrief bound tries (handle error ∷ handle shutdown ∷ unlock ∷ [])
ended-IsBrief bound tries = (
  record { few = ground arith; once = ground arith; due = tt },
  record { few = ground arith; once = ground arith; due = tt },
)

outer-IsBrief :
    (bound tries : ℕ) (running : Bool) (events : List Event)
    → IsBrief bound tries events
    → IsBrief bound tries (outer running events)
outer-IsBrief bound tries true events v = record { few = v.few; once = v.once; due = v.due }
outer-IsBrief bound tries false events v = nothing-IsBrief bound tries

woken-IsBrief :
    (bound tries : ℕ) (waited : Waited) (running : Bool) (again anew : List Event)
    → IsBrief bound tries again
    → IsBrief bound tries anew
    → IsBrief bound tries (woken (timed_wait waited) running again anew)
woken-IsBrief bound tries signalled true again anew v w = handle-IsBrief bound tries anew w
woken-IsBrief bound tries signalled false again anew v w = (ended-IsBrief bound tries).0
woken-IsBrief bound tries timed_out true again anew v w = v
woken-IsBrief bound tries timed_out false again anew v w = (ended-IsBrief bound tries).0
woken-IsBrief bound tries failed true again anew v w = (ended-IsBrief bound tries).1
woken-IsBrief bound tries failed false again anew v w = (ended-IsBrief bound tries).1

-- A turn that finds `running` clear ends the loop.
woken-stopped :
    (bound : ℕ) (waited : Waited) (running : Bool)
    → running ≡ false
    → (again anew : List Event) → IsBrief bound 0 (woken (timed_wait waited) running again anew)
woken-stopped bound signalled false e again anew = (ended-IsBrief bound 0).0
woken-stopped bound timed_out false e again anew = (ended-IsBrief bound 0).0
woken-stopped bound failed false e again anew = (ended-IsBrief bound 0).1
woken-stopped bound _ true e again anew = ground arith

wait-IsBrief :
    (bound tries : ℕ) (spec : TimeSpec) (events : List Event)
    → in_nanos spec ≤ bound + 500000000
    → IsBrief bound tries events
    → IsBrief bound (suc tries) (wait spec ∷ events)
wait-IsBrief bound tries spec events h v = record {
  few = ground (arith, v.few);
  once = v.once;
  due = (h, v.due);
}

module _ (bound : ℕ) where
  inner-IsBrief :
      (before : List Turn) (turn : Turn) (rest : List Turn) (spec : TimeSpec)
      → turn.running ≡ false
      → in_nanos spec ≤ bound + 500000000
      → AllBefore bound before
      → IsBrief bound (suc (length before)) (inner spec (before ++ turn ∷ rest))
  unfolding inner
  inner-IsBrief [] turn rest spec stopped h b =
      wait-IsBrief bound 0 spec _ h (woken-stopped bound turn.waited turn.running stopped _ _)
  inner-IsBrief (first ∷ before) turn rest spec stopped h b =
      let frame = next_frame_lem first.clock b.0.0 in
      let again =
        inner-IsBrief before turn rest (next_frame first.clock) stopped
          (omega (arith, frame.1, b.0.1)) b.1 in
      let anew = inner-IsBrief before turn rest spec stopped h b.1 in
      wait-IsBrief bound (suc (length before)) spec _ h (
        woken-IsBrief bound _ first.waited first.running _ _ again
          (outer-IsBrief bound _ first.stays _ anew))

goes_on-stopped : (waited : Waited) (again anew : Bool) → goes_on waited false again anew ≡ false
goes_on-stopped signalled again anew = refl
goes_on-stopped timed_out again anew = refl
goes_on-stopped failed again anew = refl

goes_on-over : (waited : Waited) (running : Bool) → goes_on waited running false false ≡ false
goes_on-over signalled true = refl
goes_on-over timed_out true = refl
goes_on-over failed true = refl
goes_on-over waited false = goes_on-stopped waited false false

if_running-over : (running : Bool) → if_running running false ≡ false
if_running-over true = refl
if_running-over false = refl

still_waits-stopped :
    (before : List Turn) (turn : Turn) (rest : List Turn)
    → turn.running ≡ false
    → still_waits (before ++ turn ∷ rest) ≡ false
still_waits-stopped [] turn rest stopped = rw stopped (goes_on-stopped turn.waited _ _)
still_waits-stopped (first ∷ before) turn rest stopped =
    rw (still_waits-stopped before turn rest stopped, if_running-over first.stays)
      (goes_on-over first.waited first.running)

-- The caller's handler gives the mutex back exactly where it is called with CONTINUE. A signal routine
-- that finds its `running` cleared after a wait, whatever the waits return, has then returned: it has
-- given the mutex back, has waited at most once more than in the turns before, and has called its
-- handler with SHUTDOWN at most once. Where the clocks that it reads in those turns are at most
-- `bound`, none of its waits is until later than half a second after that.
pub interrupted_lem :
    (bound : ℕ) (before : List Turn) (turn : Turn) (rest : List Turn)
    → turn.running ≡ false
    → AllBefore bound before
    → (lock_after false (signal_routine true (before ++ turn ∷ rest)) ≡ some false)
      × IsBrief bound (suc (length before)) (signal_routine true (before ++ turn ∷ rest))
unfolding signal_routine
interrupted_lem bound before turn rest stopped b = (
  signal_routine_lem true (before ++ turn ∷ rest)
      ∙ ap some (still_waits-stopped before turn rest stopped),
  outer-IsBrief bound _ true _ (inner-IsBrief bound before turn rest _ stopped (ground arith) b),
)
