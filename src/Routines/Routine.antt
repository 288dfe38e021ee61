-- ===== src/Routines/Routine.antt =====
-- routines/src/linux/routine.c, without the loop of its signal routines: routines, the threads that they
-- are linked to, and the locks of signals; and the creation of a consumer in
-- routines/src/common/consumer.c. Threads, mutexes and conditions are those of pthread, whose answers
-- are arguments; a lock is known by its address.
pub mod Laws
pub mod Locks
mod Tests
use mcmp.Common.{ℕ, Bool, true, false, Option, none, some, List, [], ◌∷◌, ◌==◌, if◌then◌else◌}
use mcmp.Status.{Status, success, ovtimeout, not_implemented}
use mcmp.Routines.SignalRoutine.{
  Event, Turn, Waited, signalled, timed_out, failed, signal_routine, timed_wait as timed_status,
}
use mcmp.Routines.Consumer.{Event as Taking, Poll, pool_loop}

-- A `McmchRoutineHandler`: `mcmchSignalRoutineHandler`, `__priv_consumer_handler_dispatcher`, or another
-- function at an address.
pub data Handler : Type 0 where
  signal_routine_handler consumer_handler_dispatcher : Handler
  function : (address : ℕ) → Handler

-- `McmchRoutine`; `arg` is an address.
pub record Routine : Type 0 where
  pub handler : Handler
  pub arg : ℕ

pub record SignalRoutine : Type 0 where
  pub routine : Routine
  pub lock : ℕ
  pub running : Bool
  pub handler : ℕ
  pub arg : ℕ

pub record ConsumerRoutine : Type 0 where
  pub routine : Routine
  pub lock : ℕ
  pub key : ℕ
  pub handler : ℕ
  pub running : Bool
  pub ctx : ℕ

-- `mcmchRoutineMake`
abbrev pub make : Routine → Handler → (arg : ℕ) → Status × Routine
make routine handler arg = (success, record routine { handler = handler; arg = arg })

-- `mcmchSignalRoutineCreate` and `mcmchConsumerRoutineCreate`, at the address `self`; the routine is
-- their first field, through which `mcmchRoutineMake` writes.
unfoldable pub create_signal_routine :
    (self : ℕ) → SignalRoutine → (lock handler arg : ℕ) → Status × SignalRoutine
create_signal_routine self memory lock handler arg =
    let (status, routine) = make memory.routine signal_routine_handler self in
    (
      status,
      record { routine = routine; lock = lock; running = true; handler = handler; arg = arg },
    )

unfoldable pub create_consumer_routine :
    (self : ℕ) → ConsumerRoutine → (lock key handler ctx : ℕ) → Status × ConsumerRoutine
create_consumer_routine self memory lock key handler ctx =
    let (status, routine) = make memory.routine consumer_handler_dispatcher self in
    (
      status,
      record {
        routine = routine;
        lock = lock;
        key = key;
        handler = handler;
        running = true;
        ctx = ctx;
      },
    )

-- `mcmchSignalRoutineInterrompt`
unfoldable pub interrupt : SignalRoutine → SignalRoutine
interrupt routine = record routine { running = false }

-- What `mcmchRoutineLink` returns, with the pipeline and the routine that a new thread runs.
pub record Linked : Type 0 where
  pub status : Status
  pub pipeline : ℕ
  pub begins : Option Routine

-- `mcmchRoutineLink`; `created` is the thread that `pthread_create` makes, or `none` if it fails.
unfoldable pub link : (created : Option ℕ) → (pipeline : ℕ) → Routine → Linked
link none pipeline routine = record { status = success; pipeline = pipeline; begins = none }
link (some thread) pipeline routine = record {
  status = success;
  pipeline = thread;
  begins = some routine;
}

-- What is at an address of memory.
pub data Object : Type 0 where
  signal : SignalRoutine → Object
  consumer : ConsumerRoutine → Object
  other : Object

-- What a thread does: one of the loops, or a call of another function. `misread` is a loop that takes
-- something else for its routine.
pub data Work : Type 0 where
  waits : List Event → Work
  polls : List Taking → Work
  performs : (address arg : ℕ) → Work
  misread : Work

-- The two loops, on the object that they take for their routine.
abbrev pub waits_as : List Turn → Object → Work
waits_as turns (signal r) = waits (signal_routine r.running turns)
waits_as turns _ = misread

abbrev pub polls_as : List Poll → Object → Work
polls_as answers (consumer r) = polls (pool_loop r.running answers)
polls_as answers _ = misread

-- The thread of a routine, with what its waits and its polls return.
unfoldable pub work : (memory : ℕ → Object) → List Turn → List Poll → Routine → Work
work memory turns answers routine = elim routine.handler [
  | signal_routine_handler ↦ waits_as turns (memory routine.arg)
  | consumer_handler_dispatcher ↦ polls_as answers (memory routine.arg)
  | function address ↦ performs address routine.arg
]

-- The calls of pthread on a lock, in order.
pub data Call : Type 0 where
  init_attributes sets_monotonic destroy_attributes : Call
  init_mutex init_cond destroy_mutex destroy_cond : (lock : ℕ) → Call
  lock_mutex unlock_mutex waits_cond timed_waits_cond signals_cond broadcasts_cond :
      (lock : ℕ) → Call

-- `ETIMEDOUT`
abbrev pub etimedout : ℕ
etimedout = 110

-- How the result of `pthread_cond_timedwait` reads to `mcmchSignalLockTimedWait`.
abbrev pub waited : (answer : ℕ) → Waited
waited answer = if answer == etimedout then timed_out else if answer == 0 then signalled else failed

-- The functions on a `McmchSignalLock`.
pub data Request : Type 0 where
  initilize block wait timed_wait release destroy dispatch dispatch_all : Request

-- What each returns, given what its last call of pthread returns; `none` is `void`.
unfoldable pub reply : Request → (answer : ℕ) → Option Status
reply initilize answer = some success
reply block answer = some success
reply wait answer = some (if answer == 0 then success else not_implemented)
reply timed_wait answer = some (timed_status (waited answer))
reply release answer = some success
reply destroy answer = some success
reply dispatch answer = none
reply dispatch_all answer = none

unfoldable pub calls_of : (lock : ℕ) → Request → List Call
calls_of lock initilize =
    init_attributes ∷ sets_monotonic ∷ init_mutex lock ∷ init_cond lock ∷ destroy_attributes ∷ []
calls_of lock block = lock_mutex lock ∷ []
calls_of lock wait = waits_cond lock ∷ []
calls_of lock timed_wait = timed_waits_cond lock ∷ []
calls_of lock release = unlock_mutex lock ∷ []
calls_of lock destroy = destroy_cond lock ∷ destroy_mutex lock ∷ []
calls_of lock dispatch = signals_cond lock ∷ []
calls_of lock dispatch_all = broadcasts_cond lock ∷ []
