-- ===== src/Layout.antt =====
-- The blocks of memory that the components ask of `malloc`, and the macros that find their parts:
-- include/mcmp/util/setqueue.h, chunkedqueue.h and queue.h of utilities/,
-- routines/src/linux/worker.c, routines/include/monarch/routines/pool.h,
-- server/src/linux/broadcast.c and server/include/monarch/server/heartbeat.h. Addresses are numbers; the
-- sizes of the structs are those of a 64-bit Unix.
pub mod Laws
pub mod Alignment
mod Tests
use mcmp.Common.{ℕ, zero, suc, ◌+◌, ◌-◌, ◌*◌, ◌/◌, ◌%◌, ◌^◌, List, [], ◌∷◌, ◌++◌, size_add}
use mcmp.Routines.Pool.{bytes_for}

pub record Part : Type 0 where
  pub start : ℕ
  pub size : ℕ

abbrev pub part : ℕ → ℕ → Part
part start size = record { start = start; size = size }

-- The parts of an array, from one index on; `address` is the macro for its elements.
abbrev pub cells : (address : ℕ → ℕ) → (size index count : ℕ) → List Part
cells address size index zero = []
cells address size index (suc count) =
    part (address index) size ∷ cells address size (index + 1) count

-- The bytes for as many bits, as `size_t` computes them.
abbrev pub byteslength : ℕ → ℕ
byteslength length = size_add length 7 / 8

-- `MCMP_SQU_GET_VALUES_BITMAP` and the others; `sizeof(mcmpsetqueue_header_t)` is 64.
module _ (squ bytes : ℕ) where
  abbrev pub values_bitmap : ℕ
  values_bitmap = squ + 64

  abbrev pub ready_bitmap : ℕ
  ready_bitmap = values_bitmap + bytes

  abbrev pub items : ℕ
  items = ready_bitmap + bytes

  abbrev pub item : ℕ → ℕ
  item ind = items + 8 * ind

-- `MCMP_CQ_CHUNK` and the others; `sizeof(McmpChunkedQueueHeader)` is 64, that of a chunk's own head and
-- tail 16.
module _ (cq chunksize : ℕ) where
  abbrev pub chunksptr : ℕ
  chunksptr = cq + 64

  abbrev pub chunk : ℕ → ℕ
  chunk ch = chunksptr + ch * chunksize

  abbrev pub chunk_items : ℕ → ℕ
  chunk_items ch = chunk ch + 16

  abbrev pub chunk_item : ℕ → ℕ → ℕ
  chunk_item ch it = chunk_items ch + 8 * it

  -- The chunks from one on, each with its items.
  abbrev pub chunks : (alignment ch count : ℕ) → List Part
  chunks alignment ch zero = []
  chunks alignment ch (suc count) =
      part (chunk ch) 16 ∷ cells (chunk_item ch) 8 0 alignment ++ chunks alignment (ch + 1) count

-- `MCMP_QU_PAYLOADPTR` and `MCMP_QU_ITEM`
abbrev pub payloadptr : (queue : ℕ) → ℕ
payloadptr queue = queue + 32

abbrev pub queue_item : (queue itsize index : ℕ) → ℕ
queue_item queue itsize index = payloadptr queue + itsize * index

-- `MCMCHWORKER_EXECUTOR_GET_BITMAP` and the others.
module _ (ex bitmap_length : ℕ) where
  abbrev pub worker_bitmap : ℕ
  worker_bitmap = ex + 64

  abbrev pub worker_monitors : ℕ
  worker_monitors = worker_bitmap + bitmap_length

  abbrev pub worker_monitor : ℕ → ℕ
  worker_monitor m = worker_monitors + 32 * m

-- `MCMCHPOOL_GET_IDENTIFIERS` and `MCMCHPOOL_GET_BITMAP`
module _ (pl : ℕ) where
  abbrev pub identifiers : ℕ
  identifiers = pl + 24

  abbrev pub identifier : ℕ → ℕ
  identifier i = identifiers + 24 * i

  abbrev pub pool_bitmap : (length : ℕ) → ℕ
  pool_bitmap length = identifier length

-- `MCH_BC_GET_BITMAP`, `MCH_BC_GET_CLIENTS` and `MCH_BC_GET_CLIENT`
module _ (bc bitmap_length : ℕ) where
  abbrev pub broadcast_bitmap : ℕ
  broadcast_bitmap = bc + 16

  abbrev pub broadcast_clients : ℕ
  broadcast_clients = broadcast_bitmap + bitmap_length

  abbrev pub broadcast_client : ℕ → ℕ
  broadcast_client i = broadcast_clients + 64 * i

-- `MCH_HBT_GET_BITMAP`
abbrev pub heartbeat_bitmap : (heartbeat : ℕ) → ℕ
heartbeat_bitmap heartbeat = heartbeat + 32

-- What is asked for: a set queue, a chunked queue, a queue, a worker's executor, a pool, a broadcast, a
-- heartbeat.
pub data Block : Type 0 where
  set_queue : (length : ℕ) → Block
  chunked_queue : (length alignment : ℕ) → Block
  queue : (item_size length : ℕ) → Block
  worker : (length : ℕ) → Block
  pool : (nrots : ℕ) → Block
  broadcast : (capacity : ℕ) → Block
  heartbeat : (bitmap_length : ℕ) → Block

-- `totalchunks` and `chunksize` of `mcmpChunkedQueueCreate`
abbrev pub total_chunks : (length alignment : ℕ) → ℕ
total_chunks length alignment = size_add length (alignment - 1) / alignment

abbrev pub chunk_size : (alignment : ℕ) → ℕ
chunk_size alignment = (16 + alignment * 8) % 2 ^ 64

-- The argument of `malloc` in each create function, as `size_t` computes it.
abbrev pub set_queue_size : (length : ℕ) → ℕ
set_queue_size length = (64 + byteslength length * 2 + 8 * length) % 2 ^ 64

abbrev pub chunked_queue_size : (length alignment : ℕ) → ℕ
chunked_queue_size length alignment =
    (64 + total_chunks length alignment * chunk_size alignment) % 2 ^ 64

abbrev pub queue_size : (item_size length : ℕ) → ℕ
queue_size item_size length = (32 + item_size * length) % 2 ^ 64

abbrev pub worker_size : (length : ℕ) → ℕ
worker_size length = (64 + byteslength length + 32 * length) % 2 ^ 64

abbrev pub pool_size : (nrots : ℕ) → ℕ
pool_size nrots = (24 + 24 * nrots + bytes_for nrots) % 2 ^ 64

abbrev pub broadcast_size : (capacity : ℕ) → ℕ
broadcast_size capacity = (16 + byteslength capacity + 64 * capacity) % 2 ^ 64

abbrev pub heartbeat_size : (bitmap_length : ℕ) → ℕ
heartbeat_size bitmap_length = (32 + bitmap_length) % 2 ^ 64

abbrev pub requested : Block → ℕ
requested (set_queue length) = set_queue_size length
requested (chunked_queue length alignment) = chunked_queue_size length alignment
requested (queue item_size length) = queue_size item_size length
requested (worker length) = worker_size length
requested (pool nrots) = pool_size nrots
requested (broadcast capacity) = broadcast_size capacity
requested (heartbeat bitmap_length) = heartbeat_size bitmap_length

-- The parts that the code uses of each block, in the order of their addresses.
abbrev pub parts : (start : ℕ) → Block → List Part
parts start (set_queue length) =
    let bytes = byteslength length in
    part start 64
    ∷ part (values_bitmap start bytes) bytes
    ∷ part (ready_bitmap start bytes) bytes
    ∷ cells (item start bytes) 8 0 length
parts start (chunked_queue length alignment) =
    part start 64 ∷ chunks start (chunk_size alignment) alignment 0 (total_chunks length alignment)
parts start (queue item_size length) =
    part start 32 ∷ cells (queue_item start item_size) item_size 0 length
parts start (worker length) =
    let bytes = byteslength length in
    part start 64
    ∷ part (worker_bitmap start bytes) bytes
    ∷ cells (worker_monitor start bytes) 32 0 length
parts start (pool nrots) =
    part start 24 ∷ cells (identifier start) 24 0 nrots
    ++ part (pool_bitmap start nrots) (bytes_for nrots) ∷ []
parts start (broadcast capacity) =
    let bytes = byteslength capacity in
    part start 16
    ∷ part (broadcast_bitmap start bytes) bytes
    ∷ cells (broadcast_client start bytes) 64 0 capacity
parts start (heartbeat bitmap_length) =
    part start 32 ∷ part (heartbeat_bitmap start) bitmap_length ∷ []
