-- ===== src/ChunkedQueue.antt =====
-- utilities/src/common/chunkedqueue.c and the macros of utilities/include/mcmp/util/chunkedqueue.h: a
-- queue in chunks, each a ring of its own, with several producers and consumers. One step of
-- `push_step` and `take_step` is one atomic access, or the copy of an item. The compare-exchange is
-- the weak one: it may fail although the values agree, which `lucky` decides.
pub mod Create
pub mod SoloPush
pub mod SoloTake
pub mod Calls
pub mod Threads
pub mod Race
mod Tests
use mcmp.Common.{
  ℕ, zero, suc, ◌+◌, ◌-◌, ◌*◌, ◌/◌, ◌%◌, ◌^◌, Bool, true, false, ◌&&◌, Option, none, some, List, [],
  ◌∷◌, ◌==◌, if◌then◌else◌, size_add, length, get_elem?, set,
}
use mcmp.Ring.{next_index}
use mcmp.Status.{Status, success, overflow, out_of_mem}

-- `McmpChunkInfo` with the items behind it. An item is a `uintptr_t`.
pub record Chunk : Type 0 where
  pub head : ℕ
  pub tail : ℕ
  pub items : List ℕ

-- `McmpChunkedQueueHeader` with the chunks behind it.
pub record ChunkedQueue : Type 0 where
  pub alignment : ℕ
  pub total_length : ℕ
  pub chunk_total_size : ℕ
  pub chunks : List Chunk

-- `fault` is a division by zero.
pub data Created : Type 0 where
  fault : Created
  null : Status → Created
  made : ChunkedQueue → Created

-- The loop that initialises `totalchunks - i` chunks; `memory i` is what `malloc` left in the items of
-- chunk `i`.
unfoldable pub init_chunks : (ℕ → List ℕ) → ℕ → ℕ → List Chunk
init_chunks memory zero i = []
init_chunks memory (suc left) i =
    record { head = 0; tail = 0; items = memory i } ∷ init_chunks memory left (i + 1)

-- `mcmpChunkedQueueCreate`; `none` stands for a `malloc` that returns NULL.
unfoldable pub create : Option (ℕ → List ℕ) → ℕ → ℕ → Created
create memory requested alignment =
    let totalchunks = size_add requested ((alignment + (2 ^ 64 - 1)) % 2 ^ 64) / alignment in
    let chunksize = size_add 16 ((alignment * 8) % 2 ^ 64) in
    if alignment == 0 then fault else elim memory [
      | none ↦ null out_of_mem
      | some cells ↦ made (record {
        alignment = alignment;
        total_length = (totalchunks * alignment) % 2 ^ 64;
        chunk_total_size = chunksize;
        chunks = init_chunks cells totalchunks 0;
      })
    ]

-- Where a thread stands in `mcmpChunkedQueuePush`, with the locals that are live there.
pub data PushPc : Type 0 where
  start : PushPc
  loaded : (index next : ℕ) → PushPc
  claiming : (index next : ℕ) → PushPc
  writing : (index : ℕ) → PushPc
  done : Status → PushPc

-- `mcmpChunkedQueuePush` on one chunk of `n` items.
unfoldable pub push_step : ℕ → ℕ → Bool → Chunk → PushPc → Chunk × PushPc
push_step n item lucky chunk start = (chunk, loaded chunk.head (next_index n chunk.head))
push_step n item lucky chunk (loaded index next) =
    (chunk, if chunk.tail == next then done overflow else claiming index next)
push_step n item lucky chunk (claiming index next) =
    if lucky && chunk.head == index
    then (record chunk { head = next }, writing index)
    else (chunk, start)
push_step n item lucky chunk (writing index) =
    (record chunk { items = set chunk.items index item }, done success)
push_step n item lucky chunk (done status) = (chunk, done status)

pub data TakePc : Type 0 where
  start : TakePc
  loaded : (index next : ℕ) → TakePc
  claiming : (index next : ℕ) → TakePc
  reading : (index : ℕ) → TakePc
  done : Status → Option ℕ → TakePc

-- `mcmpChunkedQueueTake` on one chunk of `n` items. The option is what it has stored to `*item`.
unfoldable pub take_step : ℕ → Bool → Chunk → TakePc → Chunk × TakePc
take_step n lucky chunk start = (chunk, loaded chunk.tail (next_index n chunk.tail))
take_step n lucky chunk (loaded index next) =
    (chunk, if chunk.head == index then done overflow none else claiming index next)
take_step n lucky chunk (claiming index next) =
    if lucky && chunk.tail == index
    then (record chunk { tail = next }, reading index)
    else (chunk, start)
take_step n lucky chunk (reading index) = (chunk, done success (get_elem? chunk.items index))
take_step n lucky chunk (done status item) = (chunk, done status item)
