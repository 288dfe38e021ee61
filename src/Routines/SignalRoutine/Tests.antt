-- ===== src/Routines/SignalRoutine/Tests.antt =====
-- A signal routine that is signalled, times out and is stopped.
use mcmp.Common.{◌≡◌, refl, arith, true, false, some, List, [], ◌∷◌, ◌++◌}
use mcmp.Routines.Timer.{TimeSpec, next_frame}
use mcmp.Routines.SignalRoutine.{
  block, wait, handle, unlock, go_on, shutdown, signalled, timed_out, Turn, inner, signal_routine,
}
use mcmp.Routines.SignalRoutine.Ends.{AllBefore, IsBrief, interrupted_lem}
use mcmp.Routines.SignalRoutine.Laws.{lock_after}

abbrev at_zero : TimeSpec
at_zero = record { secs = 0; nanos = 0 }

abbrev turns : List Turn
turns =
    record { waited = signalled; running = true; clock = at_zero; stays = true }
    ∷ record { waited = timed_out; running = true; clock = at_zero; stays = true }
    ∷ record { waited = timed_out; running = false; clock = at_zero; stays = false }
    ∷ []

trace :
    signal_routine true turns
    ≡ block
      ∷ wait at_zero
      ∷ handle go_on
      ∷ block
      ∷ wait at_zero
      ∷ wait (record { secs = 0; nanos = 500000000 })
      ∷ handle shutdown
      ∷ unlock
      ∷ []
unfolding signal_routine inner next_frame
trace = refl

abbrev stopped_turn : Turn
stopped_turn = record { waited = timed_out; running = false; clock = at_zero; stays = true }

abbrev first_turns : List Turn
first_turns =
    record { waited = signalled; running = true; clock = at_zero; stays = true }
    ∷ record { waited = timed_out; running = true; clock = at_zero; stays = true }
    ∷ []

first_turns-AllBefore : AllBefore 0 first_turns
first_turns-AllBefore = ((ground arith, ground arith), ((ground arith, ground arith), tt))

interrupted_lem_example :
    (lock_after false (signal_routine true (first_turns ++ stopped_turn ∷ turns)) ≡ some false)
    × IsBrief 0 3 (signal_routine true (first_turns ++ stopped_turn ∷ turns))
interrupted_lem_example =
    interrupted_lem 0 first_turns stopped_turn turns refl first_turns-AllBefore
