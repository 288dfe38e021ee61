-- ===== src/Routines/Pool.antt =====
-- routines/src/common/pool.c and routines/src/linux/pool.c: a pool of threads that start and stop with
-- a bit of the pool's bitmap. A pool is known by the index `pool`, which stands for its pointer.
pub mod Safety
pub mod Missed
mod Tests
use native.Mathlib.Decide.{ℕ_discrete}
use mathlib.Core.Logic.{ite}
use mcmp.Common.{
  ℕ, zero, suc, ◌+◌, ◌/◌, ◌%◌, ◌^◌, ◌≡◌, Bool, true, false, Option, none, some, List, [], ◌∷◌, leb,
  if◌then◌else◌, set, get_or,
}
use mcmp.Status.{Status, success, out_of_mem, not_implemented}
use mcmp.Bitmap.{BitMap, clean_order, enable_bit, disable_bit, is_enabled_bit, is_disabled_bit}

-- `McmchExecutionPoolIdentifier`; `pipeline` is `none` where no thread was made for it.
pub record Identifier : Type 0 where
  pub start : ℕ
  pub pipeline : Option ℕ

-- `__McmchExecution_header` with the identifiers and the bitmap behind it.
pub record Pool : Type 0 where
  pub poolname : ℕ
  pub length : ℕ
  pub identifiers : List Identifier
  pub bitmap : BitMap

pub data Created : Type 0 where
  null : Status → Created
  made : Pool → Created

-- `(nrots + 7) / 8` in 32 bits
abbrev pub bytes_for : ℕ → ℕ
bytes_for nrots = (nrots + 7) % 2 ^ 32 / 8

-- `mcmchExecutionPoolCreate`; `memory` is what `malloc` leaves in the identifiers, or `none` for NULL.
unfoldable pub create : Option (List Identifier) → (name nrots : ℕ) → Created
create none name nrots = null out_of_mem
create (some memory) name nrots = made (record {
  poolname = name;
  length = nrots;
  identifiers = memory;
  bitmap = clean_order (bytes_for nrots);
})

-- The loop of `mcmchExecutionPoolLink` over the identifiers from `i` on, with `left` to go. `thread i`
-- is the thread that `pthread_create` makes for identifier `i`, or `none` where it fails, which is not
-- looked at: the identifier keeps what it had.
unfoldable pub link_loop :
    (thread : ℕ → Option ℕ) → (pool i left : ℕ) → List Identifier → List Identifier
link_loop thread pool i zero identifiers = identifiers
link_loop thread pool i (suc left) identifiers =
    let old = (get_or identifiers i (record { start = pool; pipeline = none })).pipeline in
    let pipeline : Option ℕ = elim (thread i) [ none ↦ old | some t ↦ some t ] in
    link_loop thread pool (i + 1) left
      (set identifiers i (record { start = pool; pipeline = pipeline }))

-- `mcmchExecutionPoolLink`
unfoldable pub link : (thread : ℕ → Option ℕ) → (pool : ℕ) → Pool → Pool
link thread pool p = record p { identifiers = link_loop thread pool 0 p.length p.identifiers }

-- `mcmchPoolWaitSignal`, of the result of `sigwait`.
unfoldable wait_signal : ℕ → Status
wait_signal zero = success
wait_signal (suc n) = not_implemented

-- Where a thread of the pool is: in the first loop of `__mcmch__priv_pool_routine_entry`, about to call
-- the handler, in the second loop with its result in `ret`, or at the end.
pub data EntryPc : Type 0 where
  starting : EntryPc
  working : EntryPc
  stopping : (ret : ℕ) → EntryPc
  returned : Option ℕ → EntryPc

-- `(uint16_t)(act - identifiers)`
abbrev pub slot_of : ℕ → ℕ
slot_of i = i % 2 ^ 16

-- The thread of identifier `i` up to its first loop.
unfoldable pub entry : (length i : ℕ) → EntryPc
entry length i = if leb length (slot_of i) then returned none else starting

-- One turn of a loop of `__mcmch__priv_pool_routine_entry`, after a signal or before the first one, or
-- the call of the handler, whose result is `result`.
unfoldable pub entry_step : BitMap → (i result : ℕ) → EntryPc → EntryPc
entry_step bitmap i result starting =
    if is_disabled_bit bitmap (slot_of i) then starting else working
entry_step bitmap i result working = stopping result
entry_step bitmap i result (stopping ret) =
    if is_enabled_bit bitmap (slot_of i) then stopping ret else returned (some ret)
entry_step bitmap i result (returned ret) = returned ret

-- Where the owner of the pool is: before `mcmchExecutionPoolStart`; at turn `i` of its loop; between it
-- and `mcmchExecutionPoolDestroy`; at turn `i` of its loop, before the bit is cleared and at the join;
-- and after the loop.
pub data OwnerPc : Type 0 where
  idle : OwnerPc
  enabling : ℕ → OwnerPc
  running : OwnerPc
  disabling : ℕ → OwnerPc
  joining : ℕ → OwnerPc
  freed : OwnerPc

pub record System : Type 0 where
  pub bitmap : BitMap
  pub thread : ℕ → EntryPc
  pub owner : OwnerPc

abbrev pub has_returned : EntryPc → Bool
has_returned (returned ret) = true
has_returned _ = false

-- A step of the owner of a pool of `n` threads: the bitmap and where the owner is then, or `none`
-- where it waits in a join or has returned. It alone writes to the bitmap.
unfoldable pub owner_step : (n : ℕ) → BitMap → (ℕ → EntryPc) → OwnerPc → Option (BitMap × OwnerPc)
owner_step n bitmap thread idle = some (bitmap, enabling 0)
owner_step n bitmap thread (enabling i) =
    if leb n i then some (bitmap, running) else some (enable_bit bitmap i, enabling (i + 1))
owner_step n bitmap thread running = some (bitmap, disabling 0)
owner_step n bitmap thread (disabling i) =
    if leb n i then some (bitmap, freed) else some (disable_bit bitmap i, joining i)
owner_step n bitmap thread (joining i) =
    if has_returned (thread i) then some (bitmap, disabling (i + 1)) else none
owner_step n bitmap thread freed = none

abbrev pub assign : (ℕ → EntryPc) → ℕ → EntryPc → ℕ → EntryPc
assign thread i pc j = ite (ℕ_discrete i j) pc (thread j)

-- The owner and the threads of the pool, interleaved. The handler returns `result i` to thread `i`,
-- which calls it once.
pub data Moves (n : ℕ) (result : ℕ → ℕ) (from : System) : System → Type 0 where
  here : Moves n result from from
  owns :
      {s : System} {bitmap : BitMap} {owner : OwnerPc}
      → Moves n result from s
      → owner_step n s.bitmap s.thread s.owner ≡ some (bitmap, owner)
      → Moves n result from (record { bitmap = bitmap; thread = s.thread; owner = owner })
  turns :
      {s : System}
      → Moves n result from s
      → (i : ℕ)
      → Moves n result from
          (record s { thread = assign s.thread i (entry_step s.bitmap i (result i) (s.thread i)) })

-- A pool of `n` threads as `mcmchExecutionPoolCreate` and `mcmchExecutionPoolLink` leave it.
unfoldable pub linked : ℕ → System
linked n = record { bitmap = clean_order (bytes_for n); thread = entry n; owner = idle }
