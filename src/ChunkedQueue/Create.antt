-- ===== src/ChunkedQueue/Create.antt =====
-- What `mcmpChunkedQueueCreate` lays out.
use native.Mathlib.Nat.{div-add-mod', mod-lt}
use mcmp.Common.{
  false, ℕ, zero, suc, ◌+◌, ◌-◌, ◌*◌, ◌/◌, ◌%◌, ◌^◌, ◌≤◌, ◌<◌, ◌≡◌, refl, arith, some, List, Each,
  ◌==◌, size_add, length,
}
use mcmp.ChunkedQueue.{Chunk, ChunkedQueue, made, init_chunks, create}

length-init_chunks : (memory : ℕ → List ℕ) (left i : ℕ) → length (init_chunks memory left i) ≡ left
unfolding init_chunks
length-init_chunks memory zero i = refl
length-init_chunks memory (suc left) i = omega (arith, length-init_chunks memory left (i + 1))

abbrev IsFresh : ℕ → Chunk → Type 0
IsFresh n chunk = (chunk.head ≡ 0) × (chunk.tail ≡ 0) × (length chunk.items ≡ n)

init_chunks-IsFresh :
    (memory : ℕ → List ℕ) (n : ℕ)
    → ((i : ℕ) → length (memory i) ≡ n)
    → (left i : ℕ) → Each (IsFresh n) (init_chunks memory left i)
unfolding init_chunks
init_chunks-IsFresh memory n sized zero i = tt
init_chunks-IsFresh memory n sized (suc left) i =
    ((refl, refl, sized i), init_chunks-IsFresh memory n sized left (i + 1))

-- What is promised of a queue for `requested` items in chunks of `alignment`.
pub record IsLaidOut (requested alignment : ℕ) (queue : ChunkedQueue) : Type 0 where
  pub aligned : queue.alignment ≡ alignment
  pub whole : queue.total_length ≡ length queue.chunks * alignment
  pub enough : requested ≤ queue.total_length
  pub least : queue.total_length < requested + alignment
  pub sized : queue.chunk_total_size ≡ 16 + 8 * alignment
  pub fresh : Each (IsFresh alignment) queue.chunks

rounded : (r a : ℕ) → 0 < a → (r ≤ (r + (a - 1)) / a * a) × ((r + (a - 1)) / a * a < r + a)
rounded r a pos = omega (arith, div-add-mod' (r + (a - 1)) a, mod-lt (r + (a - 1)) {m = a} pos)

-- `mcmpChunkedQueueCreate`, given memory, makes a queue of the least number of whole chunks that have
-- room for the items that are requested, each empty, if the alignment is positive and the sizes do
-- not wrap.
create-IsLaidOut :
    (memory : ℕ → List ℕ) (requested alignment : ℕ)
    → 0 < alignment
    → requested + 8 * alignment + 16 < 2 ^ 64
    → ((i : ℕ) → length (memory i) ≡ alignment)
    → (queue : ChunkedQueue) × (create (some memory) requested alignment ≡ made queue)
      × IsLaidOut requested alignment queue
unfolding create
create-IsLaidOut memory requested alignment pos small sized = (
  record {
    alignment = alignment;
    total_length = count * alignment;
    chunk_total_size = 16 + 8 * alignment;
    chunks = init_chunks memory count 0;
  },
  rw (positive, minus_one, sum, size, product),
  record {
    aligned = refl;
    whole = rw (length-init_chunks memory count 0);
    enough = (rounded requested alignment pos).0;
    least = (rounded requested alignment pos).1;
    sized = refl;
    fresh = init_chunks-IsFresh memory alignment sized count 0;
  },
)
  where
    count : ℕ
    count = (requested + (alignment - 1)) / alignment

    positive : (alignment == 0) ≡ false
    positive = ground arith

    minus_one : (alignment + (2 ^ 64 - 1)) % 2 ^ 64 ≡ alignment - 1
    minus_one = omega arith

    sum : size_add requested (alignment - 1) ≡ requested + (alignment - 1)
    sum = omega arith

    size : size_add 16 ((alignment * 8) % 2 ^ 64) ≡ 16 + 8 * alignment
    size = omega arith

    product : (count * alignment) % 2 ^ 64 ≡ count * alignment
    product = omega (arith, rounded requested alignment pos)
