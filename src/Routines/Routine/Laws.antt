-- ===== src/Routines/Routine/Laws.antt =====
-- What the thread of a routine that is created runs.
use mcmp.Common.{ℕ, ◌≡◌, ap, arith, true, List, ◌==◌, if◌then◌else◌}
use mcmp.Routines.SignalRoutine.{Turn, signal_routine}
use mcmp.Routines.Consumer.{Poll, pool_loop}
use mcmp.Routines.Routine.{
  SignalRoutine, signal_routine_handler, consumer_handler_dispatcher, ConsumerRoutine,
  create_signal_routine, create_consumer_routine, Object, signal, consumer, waits, polls, waits_as,
  polls_as, work,
}

-- The memory with an object at an address.
abbrev pub store : (ℕ → Object) → ℕ → Object → ℕ → Object
store memory self object a = if a == self then object else memory a

store_self :
    (memory : ℕ → Object) (self : ℕ) (object : Object) → store memory self object self ≡ object
store_self memory self object = ground arith

work-signal :
    (memory : ℕ → Object) (self : ℕ) (turns : List Turn) (answers : List Poll) (r : SignalRoutine)
    → work
        (store memory self (signal r))
        turns
        answers
        (record { handler = signal_routine_handler; arg = self })
      ≡ waits (signal_routine r.running turns)
unfolding work
work-signal memory self turns answers r = ap (waits_as turns) (store_self memory self (signal r))

work-consumer :
    (memory : ℕ → Object) (self : ℕ) (turns : List Turn) (answers : List Poll) (c : ConsumerRoutine)
    → work
        (store memory self (consumer c))
        turns
        answers
        (record { handler = consumer_handler_dispatcher; arg = self })
      ≡ polls (pool_loop c.running answers)
unfolding work
work-consumer memory self turns answers c =
    ap (polls_as answers) (store_self memory self (consumer c))

-- The threads of a signal routine and of a consumer that are created, whatever their memory held: that
-- of the signal routine runs its loop from `running` set on; that of the consumer runs the loop for
-- pools, whatever lock it was created with.
pub created-work :
    (memory : ℕ → Object) (self : ℕ) (turns : List Turn) (answers : List Poll)
    (left : SignalRoutine) (old : ConsumerRoutine) (lock key handler arg : ℕ)
    → let (status, r) = create_signal_routine self left lock handler arg in
      let (status', c) = create_consumer_routine self old lock key handler arg in
      (work (store memory self (signal r)) turns answers r.routine
        ≡ waits (signal_routine true turns))
      × (work (store memory self (consumer c)) turns answers c.routine
          ≡ polls (pool_loop true answers))
unfolding create_signal_routine create_consumer_routine
created-work memory self turns answers left old lock key handler arg =
    let r = create_signal_routine self left lock handler arg in
    let c = create_consumer_routine self old lock key handler arg in
    (work-signal memory self turns answers r.1, work-consumer memory self turns answers c.1)
