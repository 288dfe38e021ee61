-- ===== src/Routines/Consumer.antt =====
-- routines/src/common/consumer.c: loops that take items by a callback and hand them to another. The
-- deadlines of the first loop are those of Timer.
pub mod Laws
mod Tests
use mcmp.Common.{ℕ, Bool, true, false, List, [], ◌∷◌}
use mcmp.Routines.SignalRoutine.{Waited, signalled, timed_out, failed}

-- `ret`, with the item where it is MCMCHCONSUMER_TAKED.
pub data Ret : Type 0 where
  taked : (item : ℕ) → Ret
  nothing : Ret

-- One turn of the inner loop: how its wait goes, `running` after it, and what `key` then returns.
pub record Turn : Type 0 where
  pub waited : Waited
  pub running : Bool
  pub key : Ret

-- One round of the outer loop: what its first `key` returns, the turns of the inner loop, the flag
-- `running` after them, what `key` returns after a signal, and the flag at the next test.
pub record Round : Type 0 where
  pub first : Ret
  pub turns : List Turn
  pub running : Bool
  pub second : Ret
  pub stays : Bool

-- How the inner loop ends: it still waits, or it is left with `ret`. `woken_up` is MCMCHST_SUCCESS of
-- the wait, and `nothing` any other state of it.
pub data Left : Type 0 where
  waiting : Left
  woken_up : Left
  left : Ret → Left

abbrev after_wait : Waited → Bool → Left → Left
after_wait signalled running again = woken_up
after_wait timed_out true again = again
after_wait timed_out false again = left nothing
after_wait failed running again = left nothing

unfoldable pub inner : Ret → List Turn → Left
inner (taked item) turns = left (taked item)
inner _ [] = waiting
inner _ (turn ∷ turns) = after_wait turn.waited turn.running (inner turn.key turns)

-- What the thread does: `key` has given it an item, or it hands an item to the handler.
pub data Event : Type 0 where
  takes hands_over : (item : ℕ) → Event

abbrev taken_by : Ret → List Event → List Event
taken_by (taked item) rest = takes item ∷ rest
taken_by _ rest = rest

abbrev pub handed : Ret → List Event → List Event
handed (taked item) rest = takes item ∷ hands_over item ∷ rest
handed _ rest = rest

-- The end of a round, given the events of the later ones. `key` is called once more after a signal if
-- the routine still runs.
abbrev pub finish : Left → Bool → Ret → List Event → List Event
finish waiting running second rest = []
finish woken_up true second rest = handed second rest
finish woken_up false second rest = []
finish (left ret) true second rest = handed ret rest
finish (left ret) false second rest = taken_by ret []

-- `___priv_consumer_handler_dispatcher`
unfoldable pub consumer_loop : Bool → List Round → List Event
consumer_loop false rounds = []
consumer_loop true [] = []
consumer_loop true (round ∷ rounds) =
    let rest = consumer_loop round.stays rounds in
    finish (inner round.first round.turns) round.running round.second rest

-- `__priv_consumer_handler_dispatcher`, which waits for a signal after each `key`: what `key` returns,
-- and the flag `running`, which is tested after an item only.
pub record Poll : Type 0 where
  pub key : Ret
  pub stays : Bool

unfoldable pub pool_loop : Bool → List Poll → List Event
pool_loop false polls = []
pool_loop true [] = []
pool_loop true (poll ∷ polls) =
    let taken = pool_loop poll.stays polls in
    let untaken = pool_loop true polls in
    elim poll.key [ taked item ↦ takes item ∷ hands_over item ∷ taken | _ ↦ untaken ]
