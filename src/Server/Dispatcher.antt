-- ===== src/Server/Dispatcher.antt =====
-- server/src/common/dispatcher.c: the writer of the dispatcher, a thread with a queue and a lock, and
-- its owner, who creates, starts and destroys it.
pub mod Safety
pub mod Lost
pub mod Resources
mod Tests
use mcmp.Common.{
  ◌≡◌, Bool, true, false, not, ◌||◌, Option, none, some, List, [], ◌∷◌, if◌then◌else◌,
}
use mcmp.Status.{Status, success}

-- What a writer is made of, and what its creation and destruction do with it.
pub data Resource : Type 0 where
  writer queue lock thread : Resource

pub data Event : Type 0 where
  gets frees : Resource → Event

-- `mcmchDispatcherCreateWriterInstance`: whether it returns a writer, and what it has done. `memory`
-- and `queued` are whether `malloc` and `mcmchSetQueueCreate` return a pointer, `initilized` and
-- `made` whether `mcmchSignalLockInitilize` and `mcmchRoutineCreate` return SUCCESS.
unfoldable pub create : (memory queued initilized made : Bool) → Bool × List Event
create false queued initilized made = (false, [])
create true false initilized made = (false, gets writer ∷ frees writer ∷ [])
create true true false made = (false, gets writer ∷ gets queue ∷ frees queue ∷ frees writer ∷ [])
create true true true false =
    (false, gets writer ∷ gets queue ∷ gets lock ∷ frees lock ∷ frees queue ∷ frees writer ∷ [])
create true true true true = (true, gets writer ∷ gets queue ∷ gets lock ∷ gets thread ∷ [])

-- `mcmchDispatcherDestroyWriterInstance` after its signal: the join, and the frees.
abbrev pub destroyed : List Event
destroyed = frees thread ∷ frees lock ∷ frees queue ∷ frees writer ∷ []

-- The flags of `McmchDispatcherWriterHandler`, which are bits of one word. Setting or clearing one reads
-- the word and then writes it, so that what another thread writes in between is lost.
pub record Flags : Type 0 where
  pub started : Bool
  pub closure : Bool
  pub ondispatch : Bool
  pub working : Bool

-- Where `mcmchDispatcherWriterRuntineHandler` is: before the lock is taken; at the test of STARTED;
-- past it, about to wait; in the wait; and back from it, where `failed` is whether it failed. Then at
-- the head of the second loop; clearing WORKING, before and after it has read the word; at its test of
-- ONDISPATCH, and about to wait, in the wait and back from it there; at the dispatch, setting WORKING
-- and clearing ONDISPATCH in the same way, and releasing; and at the head of the loop over the queue.
pub data WriterPc : Type 0 where
  blocking testing waiting asleep : WriterPc
  woken : (failed : Bool) → WriterPc
  looping entering : WriterPc
  resting : (word : Flags) → WriterPc
  rested idle idle_asleep : WriterPc
  idle_woken : (failed : Bool) → WriterPc
  dispatching : WriterPc
  marking : (word : Flags) → WriterPc
  marked : WriterPc
  unmarking : (word : Flags) → WriterPc
  unmarked draining : WriterPc
  returned : (failed : Bool) → WriterPc

-- What the queue answers: it is empty, gives a client, or refuses.
pub data Reply : Type 0 where
  empty took refused : Reply

-- The owner: before the start; in `mcmchDispatcherWriterStart` with the word that it has read, and
-- between the flag and the signal; after it; in the destruction with the word that it has read,
-- between the flag and the signal, and in the join; and after it.
pub data OwnerPc : Type 0 where
  created : OwnerPc
  raising : (word : Flags) → OwnerPc
  starting running : OwnerPc
  sealing : (word : Flags) → OwnerPc
  closing joining freed : OwnerPc

-- The writer, and whether it holds the mutex of its lock.
pub record System : Type 0 where
  pub flags : Flags
  pub pc : WriterPc
  pub held : Bool
  pub owner : OwnerPc

-- A step of the writer; `reply` is what the queue answers where it looks at it.
unfoldable pub writer_step : Reply → Flags → WriterPc → Bool → Flags × WriterPc × Bool
writer_step reply flags blocking held = (flags, testing, true)
writer_step reply flags testing held =
    if flags.started then (flags, looping, false) else (flags, waiting, held)
writer_step reply flags waiting held = (flags, asleep, false)
writer_step reply flags asleep held = (flags, asleep, held)
writer_step reply flags (woken failed) held =
    if flags.closure || failed then (flags, returned failed, false) else (flags, testing, held)
writer_step reply flags looping held =
    if flags.closure then (flags, returned false, held) else (flags, entering, true)
writer_step reply flags entering held = (flags, resting flags, held)
writer_step reply flags (resting word) held = (record word { working = false }, rested, held)
writer_step reply flags rested held =
    if flags.ondispatch then (flags, dispatching, held) else (flags, idle, held)
writer_step reply flags idle held = (flags, idle_asleep, false)
writer_step reply flags idle_asleep held = (flags, idle_asleep, held)
writer_step reply flags (idle_woken failed) held =
    if flags.closure || failed then (flags, returned failed, false) else (flags, looping, false)
writer_step reply flags dispatching held = (flags, marking flags, held)
writer_step reply flags (marking word) held = (record word { working = true }, marked, held)
writer_step reply flags marked held = (flags, unmarking flags, held)
writer_step reply flags (unmarking word) held = (record word { ondispatch = false }, unmarked, held)
writer_step reply flags unmarked held = (flags, draining, false)
writer_step empty flags draining held = (flags, looping, held)
writer_step took flags draining held =
    if flags.closure then (flags, looping, held) else (flags, draining, held)
writer_step refused flags draining held = (flags, looping, held)
writer_step reply flags (returned failed) held = (flags, returned failed, held)

-- A wait that returns has the mutex again; no other place of the writer notices a signal.
abbrev pub woken_up : (failed : Bool) → WriterPc → Bool → WriterPc × Bool
woken_up failed asleep held = (woken failed, true)
woken_up failed idle_asleep held = (idle_woken failed, true)
woken_up failed pc held = (pc, held)

abbrev pub wakes : (failed : Bool) → System → System
wakes failed s = let (pc, held) = woken_up failed s.pc s.held in record s { pc = pc; held = held }

abbrev pub has_returned : WriterPc → Bool
has_returned (returned failed) = true
has_returned _ = false

-- A step of the owner, who takes the lock nowhere: `mcmchDispatcherWriterStart`,
-- `mcmchDispatcherDestroyWriterInstance`. A new writer is started, or, where `destroys` is true,
-- destroyed at once. In the join the owner waits for the writer.
abbrev pub owner_turn : (destroys : Bool) → OwnerPc → System → System
owner_turn true created s = record s { owner = sealing s.flags }
owner_turn false created s = record s { owner = raising s.flags }
owner_turn destroys (raising word) s = record s {
  flags = record word { started = true };
  owner = starting;
}
owner_turn destroys starting s = record (wakes false s) { owner = running }
owner_turn destroys running s = record s { owner = sealing s.flags }
owner_turn destroys (sealing word) s = record s {
  flags = record word { closure = true };
  owner = closing;
}
owner_turn destroys closing s = record (wakes false s) { owner = joining }
owner_turn destroys joining s = if has_returned s.pc then record s { owner = freed } else s
owner_turn destroys freed s = s

abbrev pub owner_step : (destroys : Bool) → System → System
owner_step destroys s = owner_turn destroys s.owner s

-- The writer and its owner, interleaved. Where `spurious` is true, a wait can also return without a
-- signal, or fail.
pub data Moves (spurious : Bool) (from : System) : System → Type 0 where
  here : Moves spurious from from
  owns :
      {s : System}
      → Moves spurious from s
      → (destroys : Bool) → Moves spurious from (owner_step destroys s)
  writes :
      {s : System}
      → Moves spurious from s
      → (reply : Reply)
      → Moves spurious from (
          let (flags, pc, held) = writer_step reply s.flags s.pc s.held in
          record s { flags = flags; pc = pc; held = held })
  stirs :
      {s : System}
      → Moves spurious from s
      → spurious ≡ true
      → (failed : Bool) → Moves spurious from (wakes failed s)

-- As `mcmchDispatcherCreateWriterInstance` leaves them.
abbrev pub at_creation : System
at_creation = record {
  flags = record { started = false; closure = false; ondispatch = false; working = false };
  pc = blocking;
  held = false;
  owner = created;
}
