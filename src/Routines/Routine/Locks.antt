-- ===== src/Routines/Routine/Locks.antt =====
-- The lock of a signal routine from its creation to its destruction, as calls of pthread.
use mcmp.Common.{
  if◌then◌else◌, arith, ℕ, ◌≡◌, refl, ◌∙◌, Bool, true, false, Option, none, some, List, [], ◌∷◌,
  ◌++◌,
}
use mcmp.Routines.SignalRoutine.{
  Event, block, wait, handle, unlock, go_on, shutdown, error, Turn, signal_routine,
}
use mcmp.Routines.SignalRoutine.Laws.{lock_after, if_running, still_waits, signal_routine_lem}
use mcmp.Routines.Routine.{
  Call, init_attributes, sets_monotonic, destroy_attributes, init_mutex, init_cond, destroy_mutex,
  destroy_cond, lock_mutex, unlock_mutex, waits_cond, timed_waits_cond, signals_cond,
  broadcasts_cond, Request, initilize, timed_wait, release, destroy, calls_of,
}

-- What pthread allows, for the lock at one address: the attributes, the mutex and the condition are
-- used between their initialization and their destruction; a mutex is locked by one who does not hold
-- it, given back and waited with by one who does, and destroyed while nobody holds it.
pub data Mutex : Type 0 where
  absent free locked : Mutex

pub record Lock : Type 0 where
  pub attributes : Bool
  pub mutex : Mutex
  pub cond : Bool

-- The lock after a call, by what it was.
abbrev free_only : Mutex → Lock → Option Lock
free_only free after = some after
free_only _ after = none

abbrev locked_only : Mutex → Lock → Option Lock
locked_only locked after = some after
locked_only _ after = none

abbrev pub allowed : Lock → Call → Option Lock
allowed l init_attributes = if l.attributes then none else some (record l { attributes = true })
allowed l sets_monotonic = if l.attributes then some l else none
allowed l destroy_attributes = if l.attributes then some (record l { attributes = false }) else none
allowed l (init_mutex lock) = elim l.mutex [ absent ↦ some (record l { mutex = free }) | _ ↦ none ]
allowed l (init_cond lock) = if l.cond then none else some (record l { cond = true })
allowed l (destroy_mutex lock) = free_only l.mutex (record l { mutex = absent })
allowed l (destroy_cond lock) = if l.cond then some (record l { cond = false }) else none
allowed l (lock_mutex lock) = free_only l.mutex (record l { mutex = locked })
allowed l (unlock_mutex lock) = locked_only l.mutex (record l { mutex = free })
allowed l (waits_cond lock) = if l.cond then locked_only l.mutex l else none
allowed l (timed_waits_cond lock) = if l.cond then locked_only l.mutex l else none
allowed l (signals_cond lock) = if l.cond then some l else none
allowed l (broadcasts_cond lock) = if l.cond then some l else none

abbrev pub play : Lock → List Call → Option Lock
play l [] = some l
play l (call ∷ rest) = elim (allowed l call) [ none ↦ none | some after ↦ play after rest ]

-- The calls of a thread whose handler gives the mutex back when it is called with CONTINUE.
abbrev pub thread_calls : (lock : ℕ) → List Event → List Call
thread_calls lock [] = []
thread_calls lock (block ∷ events) = calls_of lock Request.block ++ thread_calls lock events
thread_calls lock (wait until ∷ events) = calls_of lock timed_wait ++ thread_calls lock events
thread_calls lock (handle go_on ∷ events) = calls_of lock release ++ thread_calls lock events
thread_calls lock (handle _ ∷ events) = thread_calls lock events
thread_calls lock (unlock ∷ events) = calls_of lock release ++ thread_calls lock events

abbrev mutex_of : Bool → Mutex
mutex_of true = locked
mutex_of false = free

abbrev in_use : Bool → Lock
in_use held = record { attributes = false; mutex = mutex_of held; cond = true }

abbrev pub untouched : Lock
untouched = record { attributes = false; mutex = absent; cond = false }

play-thread_calls :
    (lock : ℕ) (events : List Event) (before after : Bool) (rest : List Call)
    → lock_after before events ≡ some after
    → play (in_use before) (thread_calls lock events ++ rest) ≡ play (in_use after) rest
unfolding calls_of
play-thread_calls lock [] before after rest e = ground (arith, e)
play-thread_calls lock (block ∷ events) false after rest e =
    play-thread_calls lock events true after rest e
play-thread_calls lock (block ∷ events) true after rest e = ground (arith, e)
play-thread_calls lock (wait until ∷ events) true after rest e =
    play-thread_calls lock events true after rest e
play-thread_calls lock (wait until ∷ events) false after rest e = ground (arith, e)
play-thread_calls lock (handle go_on ∷ events) true after rest e =
    play-thread_calls lock events false after rest e
play-thread_calls lock (handle go_on ∷ events) false after rest e = ground (arith, e)
play-thread_calls lock (handle shutdown ∷ events) before after rest e =
    play-thread_calls lock events before after rest e
play-thread_calls lock (handle error ∷ events) before after rest e =
    play-thread_calls lock events before after rest e
play-thread_calls lock (unlock ∷ events) true after rest e =
    play-thread_calls lock events false after rest e
play-thread_calls lock (unlock ∷ events) false after rest e = ground (arith, e)

-- A lock is used as pthread allows from its initialization on, by the thread of a signal routine whose
-- handler gives the mutex back when it is called with CONTINUE. Destroying it behind a thread that has
-- returned, or never ran, leaves nothing of it; while the thread waits, the destruction is not allowed.
pub lifetime_lem :
    (lock : ℕ) (running : Bool) (turns : List Turn)
    → play untouched (
        calls_of lock initilize
        ++ thread_calls lock (signal_routine running turns)
        ++ calls_of lock destroy)
      ≡ (if if_running running (still_waits turns) then none else some untouched)
unfolding calls_of
lifetime_lem lock running turns =
    play-thread_calls lock (signal_routine running turns) false _ _
      (signal_routine_lem running turns)
    ∙ destroyed (if_running running (still_waits turns))
  where
    destroyed :
        (held : Bool)
        → play (in_use held) (calls_of lock destroy) ≡ (if held then none else some untouched)
    destroyed true = refl
    destroyed false = refl
