-- ===== src/Layout/Laws.antt =====
-- The parts of each block lie in what was asked for, and apart from one another.
use mathlib.Core.Path.{subst}
use mcmp.Common.{
  ℕ, zero, suc, ◌+◌, ◌*◌, ◌%◌, ◌^◌, ◌≤◌, ◌<◌, ◌≡◌, refl, sym, ap, ◌∙◌, arith, some, List, [], ◌∷◌,
  ◌++◌, get_elem?,
}
use mcmp.Routines.Pool.{bytes_for}
use mcmp.Layout.{
  Part, part, cells, byteslength, item, items, worker_monitor, worker_monitors, broadcast_client,
  broadcast_clients, payloadptr, queue_item, identifier, identifiers, pool_bitmap, chunk_item,
  chunks, Block, set_queue, chunked_queue, queue, worker, pool, broadcast, heartbeat, total_chunks,
  chunk_size, requested, parts,
}

abbrev pub total : List Part → ℕ
total [] = 0
total (first ∷ others) = first.size + total others

-- The parts follow one another from an address on, with no gap.
abbrev Tiles : ℕ → List Part → Type 0
Tiles at [] = Unit
Tiles at (first ∷ others) = (first.start ≡ at) × Tiles (at + first.size) others

total-append : (xs ys : List Part) → total (xs ++ ys) ≡ total xs + total ys
total-append [] ys = omega arith
total-append (x ∷ xs) ys = omega (arith, total-append xs ys)

Tiles-append :
    (at : ℕ) (xs ys : List Part) → Tiles at xs → Tiles (at + total xs) ys → Tiles at (xs ++ ys)
Tiles-append at [] ys h k =
    let same : at + 0 ≡ at = omega arith in subst (λ (a : ℕ). Tiles a ys) same k
Tiles-append at (x ∷ xs) ys h k =
    let same : at + (x.size + total xs) ≡ at + x.size + total xs = omega arith in
    (h.0, Tiles-append (at + x.size) xs ys h.1 (subst (λ (a : ℕ). Tiles a ys) same k))

-- A part of a tiling lies inside, and the ones behind it start where it has ended.
Tiles-inside :
    (at : ℕ) (ps : List Part) (i : ℕ) (p : Part)
    → Tiles at ps
    → get_elem? ps i ≡ some p
    → (at ≤ p.start) × (p.start + p.size ≤ at + total ps)
Tiles-inside at [] i p h e = cc
Tiles-inside at (x ∷ ps) zero p h e = ground arith
Tiles-inside at (x ∷ ps) (suc i) p h e = omega (arith, Tiles-inside (at + x.size) ps i p h.1 e)

Tiles-apart :
    (at : ℕ) (ps : List Part) (i j : ℕ) (p q : Part)
    → Tiles at ps
    → i < j
    → get_elem? ps i ≡ some p
    → get_elem? ps j ≡ some q
    → p.start + p.size ≤ q.start
Tiles-apart at [] i j p q h less e f = cc
Tiles-apart at (x ∷ ps) i zero p q h less e f = absurd (omega arith)
Tiles-apart at (x ∷ ps) zero (suc j) p q h less e f =
    ground (arith, Tiles-inside (at + x.size) ps j q h.1 f)
Tiles-apart at (x ∷ ps) (suc i) (suc j) p q h less e f =
    Tiles-apart (at + x.size) ps i j p q h.1 (omega arith) e f

total-cells :
    (address : ℕ → ℕ) (size index count : ℕ) → total (cells address size index count) ≡ size * count
total-cells address size index zero = omega arith
total-cells address size index (suc count) =
    grind (arith, total-cells address size (index + 1) count)

cells-Tiles :
    (address : ℕ → ℕ) (size start at index count : ℕ)
    → ((i : ℕ) → address i ≡ start + size * i)
    → at ≡ start + size * index
    → Tiles at (cells address size index count)
cells-Tiles address size start at index zero h e = tt
cells-Tiles address size start at index (suc count) h e =
    (h index ∙ sym e, cells-Tiles address size start (at + size) (index + 1) count h (grind arith))

module _ (cq chunksize alignment : ℕ) where
  total-chunks :
      (ch count : ℕ) → total (chunks cq chunksize alignment ch count) ≡ count * (16 + 8 * alignment)
  total-chunks ch zero = omega arith
  total-chunks ch (suc count) =
      let these = cells (chunk_item cq chunksize ch) 8 0 alignment in
      let others = chunks cq chunksize alignment (ch + 1) count in
      grind (
        arith,
        total-append these others,
        total-cells (chunk_item cq chunksize ch) 8 0 alignment,
        total-chunks (ch + 1) count,
      )

  chunks-Tiles :
      (at ch count : ℕ)
      → chunksize ≡ 16 + 8 * alignment
      → at ≡ cq + 64 + ch * chunksize
      → Tiles at (chunks cq chunksize alignment ch count)
  chunks-Tiles at ch zero whole e = tt
  chunks-Tiles at ch (suc count) whole e =
      let address = chunk_item cq chunksize ch in
      let these = cells address 8 0 alignment in
      let long : total these ≡ 8 * alignment = total-cells address 8 0 alignment in
      (
        sym e,
        Tiles-append (at + 16) these _
            (cells-Tiles address 8 (at + 16) (at + 16) 0 alignment (λ i. omega arith) (omega arith))
            (chunks-Tiles (at + 16 + total these) (ch + 1) count whole (grind arith)),
      )

-- What the create functions take for granted: a chunk has room for items, and the 32-bit count of a
-- pool's threads does not wrap where it is rounded up.
abbrev pub IsUsual : Block → Type 0
IsUsual (chunked_queue length alignment) = 0 < alignment
IsUsual (pool nrots) = nrots + 7 < 2 ^ 32
IsUsual _ = Unit

-- How many bits the code uses of a block's bitmaps, and the bytes that these have.
abbrev pub bits : Block → ℕ
bits (set_queue length) = length
bits (worker length) = length
bits (pool nrots) = nrots
bits (broadcast capacity) = capacity
bits _ = 0

abbrev pub bitmap_bytes : Block → ℕ
bitmap_bytes (set_queue length) = byteslength length
bitmap_bytes (worker length) = byteslength length
bitmap_bytes (pool nrots) = bytes_for nrots
bitmap_bytes (broadcast capacity) = byteslength capacity
bitmap_bytes _ = 0

abbrev IsTiled : ℕ → Block → Type 0
IsTiled start block =
    Tiles start (parts start block)
    × (requested block ≡ total (parts start block))
    × (bits block ≤ 8 * bitmap_bytes block)

module _ (start : ℕ) where
  set_queue-IsTiled :
      (length : ℕ)
      → total (parts start (set_queue length)) < 2 ^ 64
      → IsTiled start (set_queue length)
  set_queue-IsTiled length fits =
      let bytes = byteslength length in
      let long = total-cells (item start bytes) 8 0 length in
      (
        (
          refl,
          (
            refl,
            (
              refl,
              cells-Tiles (item start bytes) 8 (items start bytes) _ 0 length (λ i. refl)
                  (omega arith),
            ),
          ),
        ),
        omega (arith, long),
        omega (arith, long),
      )

  worker-IsTiled :
      (length : ℕ) → total (parts start (worker length)) < 2 ^ 64 → IsTiled start (worker length)
  worker-IsTiled length fits =
      let bytes = byteslength length in
      let address = worker_monitor start bytes in
      let long = total-cells address 32 0 length in
      (
        (
          refl,
          (
            refl,
            cells-Tiles address 32 (worker_monitors start bytes) _ 0 length (λ i. refl)
                (omega arith),
          ),
        ),
        omega (arith, long),
        omega (arith, long),
      )

  broadcast-IsTiled :
      (capacity : ℕ)
      → total (parts start (broadcast capacity)) < 2 ^ 64
      → IsTiled start (broadcast capacity)
  broadcast-IsTiled capacity fits =
      let bytes = byteslength capacity in
      let address = broadcast_client start bytes in
      let first = broadcast_clients start bytes in
      let long = total-cells address 64 0 capacity in
      (
        (refl, (refl, cells-Tiles address 64 first _ 0 capacity (λ i. refl) (omega arith))),
        omega (arith, long),
        omega (arith, long),
      )

  queue-IsTiled :
      (item_size length : ℕ)
      → total (parts start (queue item_size length)) < 2 ^ 64
      → IsTiled start (queue item_size length)
  queue-IsTiled item_size length fits =
      let address = queue_item start item_size in
      let long = total-cells address item_size 0 length in
      (
        (
          refl,
          cells-Tiles address item_size (payloadptr start) _ 0 length (λ i. refl) (grind arith),
        ),
        omega (arith, long),
        omega arith,
      )

  pool-IsTiled :
      (nrots : ℕ)
      → total (parts start (pool nrots)) < 2 ^ 64
      → nrots + 7 < 2 ^ 32
      → IsTiled start (pool nrots)
  pool-IsTiled nrots fits usual =
      let these = cells (identifier start) 24 0 nrots in
      let bitmap = part (pool_bitmap start nrots) (bytes_for nrots) ∷ [] in
      let long : total these ≡ 24 * nrots = total-cells (identifier start) 24 0 nrots in
      (
        (
          refl,
          Tiles-append _ these bitmap
              (cells-Tiles (identifier start) 24 (identifiers start) _ 0 nrots (λ i. refl)
                (omega arith))
              (omega (arith, long), tt),
        ),
        omega (arith, long, total-append these bitmap),
        omega arith,
      )

  -- Where there is a chunk at all, its size does not wrap.
  sized_chunks :
      (alignment count : ℕ)
      → 64 + total (chunks start (chunk_size alignment) alignment 0 count) < 2 ^ 64
      → Tiles (start + 64) (chunks start (chunk_size alignment) alignment 0 count)
        × ((64 + count * chunk_size alignment) % 2 ^ 64
            ≡ 64 + total (chunks start (chunk_size alignment) alignment 0 count))
  sized_chunks alignment zero fits = (tt, omega arith)
  sized_chunks alignment (suc count) fits =
      let long = total-chunks start (chunk_size alignment) alignment 0 (suc count) in
      let whole : chunk_size alignment ≡ 16 + 8 * alignment = grind (arith, long) in
      let wide : suc count * chunk_size alignment ≡ suc count * (16 + 8 * alignment) =
        ap (λ (size : ℕ). suc count * size) whole in
      (
        chunks-Tiles start (chunk_size alignment) alignment (start + 64) 0 (suc count) whole
            (omega arith),
        omega (arith, long, wide),
      )

  chunked_queue-IsTiled :
      (length alignment : ℕ)
      → total (parts start (chunked_queue length alignment)) < 2 ^ 64
      → 0 < alignment
      → IsTiled start (chunked_queue length alignment)
  chunked_queue-IsTiled length alignment fits usual =
      let (tiles, whole) = sized_chunks alignment (total_chunks length alignment) fits in
      ((refl, tiles), whole, omega arith)

-- The block.
parts-IsTiled :
    (start : ℕ) (block : Block)
    → IsUsual block
    → total (parts start block) < 2 ^ 64
    → IsTiled start block
parts-IsTiled start (set_queue length) usual fits = set_queue-IsTiled start length fits
parts-IsTiled start (chunked_queue length alignment) usual fits =
    chunked_queue-IsTiled start length alignment fits usual
parts-IsTiled start (queue item_size length) usual fits = queue-IsTiled start item_size length fits
parts-IsTiled start (worker length) usual fits = worker-IsTiled start length fits
parts-IsTiled start (pool nrots) usual fits = pool-IsTiled start nrots fits usual
parts-IsTiled start (broadcast capacity) usual fits = broadcast-IsTiled start capacity fits
parts-IsTiled start (heartbeat bitmap_length) usual fits =
    ((refl, (refl, tt)), omega arith, omega arith)

-- The block of each component, wherever malloc puts it, has room for all the parts that the code uses,
-- and for nothing else; each part starts where the one before it has ended, so that no two of them
-- share a byte; and its bitmaps have a bit for each index. The parts together must be smaller than the
-- address space, a chunk must have room for items, and a pool at most 2 ^ 32 - 8 threads.
pub parts_lem :
    (start : ℕ) (block : Block)
    → IsUsual block
    → total (parts start block) < 2 ^ 64
    → (requested block ≡ total (parts start block))
      × ((i : ℕ) (p : Part)
          → get_elem? (parts start block) i ≡ some p
          → (start ≤ p.start) × (p.start + p.size ≤ start + requested block))
      × ((i j : ℕ) (p q : Part)
          → i < j
          → get_elem? (parts start block) i ≡ some p
          → get_elem? (parts start block) j ≡ some q
          → p.start + p.size ≤ q.start)
      × (bits block ≤ 8 * bitmap_bytes block)
parts_lem start block usual fits =
    let (tiles, whole, enough) = parts-IsTiled start block usual fits in
    (
      whole,
      (λ i p e. omega (arith, Tiles-inside start (parts start block) i p tiles e, whole)),
      (λ i j p q less e f. Tiles-apart start (parts start block) i j p q tiles less e f),
      enough,
    )
