-- ===== src/Routines/Worker/Handover.antt =====
-- routines/src/linux/worker.c: how the executor hands tasks to one of its workers, with the accesses of
-- the beats and of the worker's thread interleaved. The other workers show only in the bits next to
-- this one's, which make an exchange fail, and in the tasks that they get; left out are the breaks of a
-- beat and of its cleanup at a worker before this one, and a `failstry` that another worker sets. A ping is a signal, of which
-- one can be pending; it is taken by the loop of the monitor in routines/src/linux/monitor.c.
pub mod Safety
pub mod Lost
mod Tests
use mcmp.Common.{ℕ, Bool, true, false, Option, none, some, List, [], ◌∷◌, ◌++◌, if◌then◌else◌}

-- Where the worker's thread is: in `sigwait`; in the loop of `__priv__mcmch_worker_monitor_sub`; with
-- its bit set, before the call of the handler; in it; and before its bit is cleared.
pub data WorkerPc : Type 0 where
  waiting woken entered working cleaning : WorkerPc

-- Where the executor's thread is: between two beats; in the cleanup, before it looks at the bit, at
-- `finished`, and before it clears the bit; and in the loop over the free bits, before it looks at the
-- bit, at `finished`, takes a task, clears `finished` and pings.
pub data ExecutorPc : Type 0 where
  resting sweeping zombie clearing scanning visiting taking handing pinging : ExecutorPc

-- The worker's bit, `struct McmchWorkerMonitor`, `failstry`, the pending signal and the two threads;
-- `given` has the tasks that the worker was given, and `ran` those with which its handler was called.
pub record System : Type 0 where
  pub bit : Bool
  pub finished : Bool
  pub taskdata : ℕ
  pub failstry : Bool
  pub pending : Bool
  pub worker : WorkerPc
  pub executor : ExecutorPc
  pub given : List ℕ
  pub ran : List ℕ

-- A step of the worker: `__priv__mcmch_worker_monitor_sub` with its helpers. `lucky` is an exchange that
-- no other bit of the byte disturbs. A try that fails may be the last of the ten.
abbrev pub worker_turn : (lucky : Bool) → System → WorkerPc → System
worker_turn lucky s waiting = if s.pending then record s { pending = false; worker = woken } else s
worker_turn lucky s woken =
    if s.bit
    then record s { worker = waiting }
    else if lucky
    then record s { bit = true; worker = entered }
    else record s { worker = waiting }
worker_turn lucky s entered = record s { ran = s.ran ++ (s.taskdata ∷ []); worker = working }
worker_turn lucky s working = record s { finished = true; worker = cleaning }
worker_turn lucky s cleaning =
    if lucky
    then record s { bit = false; worker = waiting }
    else record s { failstry = true; worker = waiting }

unfoldable pub worker_step : (lucky : Bool) → System → System
worker_step lucky s = worker_turn lucky s s.worker

-- A step of the executor: `__priv__mcmch_worker_monitor_beat` and the cleanup, as far as they touch this
-- worker. `reply` is the task that the set queue gives.
abbrev pub executor_turn : (lucky : Bool) → (reply : Option ℕ) → System → ExecutorPc → System
executor_turn lucky reply s resting =
    if s.failstry
    then record s { failstry = false; executor = sweeping }
    else record s { executor = scanning }
executor_turn lucky reply s sweeping =
    if s.bit then record s { executor = zombie } else record s { executor = scanning }
executor_turn lucky reply s zombie =
    if s.finished then record s { executor = clearing } else record s { executor = scanning }
executor_turn lucky reply s clearing =
    if lucky
    then record s { bit = false; executor = scanning }
    else record s { failstry = true; executor = scanning }
executor_turn lucky reply s scanning =
    if s.bit then record s { executor = resting } else record s { executor = visiting }
executor_turn lucky reply s visiting =
    if s.finished
    then record s { executor = taking }
    else record s { pending = true; executor = resting }
executor_turn lucky none s taking = record s { executor = resting }
executor_turn lucky (some task) s taking = record s {
  taskdata = task;
  given = s.given ++ (task ∷ []);
  executor = handing;
}
executor_turn lucky reply s handing = record s { finished = false; executor = pinging }
executor_turn lucky reply s pinging = record s { pending = true; executor = resting }

unfoldable pub executor_step : (lucky : Bool) → (reply : Option ℕ) → System → System
executor_step lucky reply s = executor_turn lucky reply s s.executor

-- The two threads interleaved, where the executor moves only in the states of `May`.
pub data Moves (May : System → Type 0) (from : System) : System → Type 0 where
  here : Moves May from from
  works : {s : System} → Moves May from s → (lucky : Bool) → Moves May from (worker_step lucky s)
  beats :
      {s : System}
      → Moves May from s
      → May s
      → (lucky : Bool) → (reply : Option ℕ) → Moves May from (executor_step lucky reply s)

-- A worker as `mcmchWorkerStart` leaves it, if its bit and `failstry` are clear.
abbrev pub started : System
started = record {
  bit = false;
  finished = true;
  taskdata = 0;
  failstry = false;
  pending = false;
  worker = waiting;
  executor = resting;
  given = [];
  ran = [];
}
