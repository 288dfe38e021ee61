-- ===== src/Routines/Routine/Tests.antt =====
-- A signal routine and a consumer that are created, linked and interrupted.
use mcmp.Common.{ℕ, ◌≡◌, refl, true, false, none, some, List, [], ◌∷◌, ◌++◌, if◌then◌else◌}
use mcmp.Status.{ovtimeout, not_implemented}
use mcmp.Routines.SignalRoutine.{signalled, timed_out, Turn, signal_routine}
use mcmp.Routines.SignalRoutine.Laws.{if_running, still_waits}
use mcmp.Routines.Consumer.{Poll, taked, pool_loop}
use mcmp.Routines.Routine.{
  function, SignalRoutine, ConsumerRoutine, create_signal_routine, create_consumer_routine, Object,
  other, signal, consumer, waits, polls, work, initilize, wait, timed_wait, destroy, reply,
  calls_of,
}
use mcmp.Routines.Routine.Laws.{store, created-work}
use mcmp.Routines.Routine.Locks.{play, untouched, thread_calls, lifetime_lem}

abbrev memory : ℕ → Object
memory a = other

abbrev left : SignalRoutine
left = record {
  routine = record { handler = function 12; arg = 5 };
  lock = 1;
  running = false;
  handler = 2;
  arg = 3;
}

abbrev old : ConsumerRoutine
old = record {
  routine = record { handler = function 12; arg = 5 };
  lock = 1;
  key = 4;
  handler = 2;
  running = false;
  ctx = 3;
}

abbrev turns : List Turn
turns =
    record {
      waited = signalled;
      running = true;
      clock = record { secs = 0; nanos = 0 };
      stays = true;
    }
    ∷ record {
      waited = timed_out;
      running = false;
      clock = record { secs = 0; nanos = 0 };
      stays = false;
    }
    ∷ []

abbrev answers : List Poll
answers = record { key = taked 8; stays = false } ∷ []

-- `ETIMEDOUT`, and another error.
replies :
    (reply timed_wait 110 ≡ some ovtimeout)
    × (reply timed_wait 22 ≡ some not_implemented)
    × (reply wait 110 ≡ some not_implemented)
unfolding reply
replies = (refl, refl, refl)

-- The threads of the two, in memory at the address 64.
threads :
    let (status, r) = create_signal_routine 64 left 32 7 9 in
    let (status', c) = create_consumer_routine 64 old 32 6 7 9 in
    (work (store memory 64 (signal r)) turns answers r.routine ≡ waits (signal_routine true turns))
    × (work (store memory 64 (consumer c)) turns answers c.routine ≡ polls (pool_loop true answers))
threads = created-work memory 64 turns answers left old 32 6 7 9

lifetime_lem_example :
    play untouched
      (calls_of 32 initilize ++ thread_calls 32 (signal_routine true turns) ++ calls_of 32 destroy)
    ≡ (if if_running true (still_waits turns) then none else some untouched)
lifetime_lem_example = lifetime_lem 32 true turns
