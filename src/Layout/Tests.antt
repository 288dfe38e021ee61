-- ===== src/Layout/Tests.antt =====
-- The theorems on blocks at concrete sizes.
use mcmp.Common.{◌+◌, ◌*◌, ◌%◌, ◌≤◌, ◌<◌, ◌≡◌, ◌≢◌, ◌↔◌, ℕ, refl, arith, some, get_elem?}
use mcmp.Layout.{
  Part, set_queue, pool, requested, parts, byteslength, item, chunk_item, chunk_size,
  worker_monitor, identifier, broadcast_client,
}
use mcmp.Layout.Laws.{bits, bitmap_bytes, total, parts_lem}
use mcmp.Layout.Alignment.{elements_lem}

-- A pool of as many threads as 32 bits count has no bitmap.
no_bitmap : bitmap_bytes (pool 4294967295) ≡ 0
no_bitmap = refl

parts_lem_example :
    (requested (set_queue 10) ≡ total (parts 4096 (set_queue 10)))
    × ((i : ℕ) (p : Part)
        → get_elem? (parts 4096 (set_queue 10)) i ≡ some p
        → (4096 ≤ p.start) × (p.start + p.size ≤ 4096 + requested (set_queue 10)))
    × ((i j : ℕ) (p q : Part)
        → i < j
        → get_elem? (parts 4096 (set_queue 10)) i ≡ some p
        → get_elem? (parts 4096 (set_queue 10)) j ≡ some q
        → p.start + p.size ≤ q.start)
    × (bits (set_queue 10) ≤ 8 * bitmap_bytes (set_queue 10))
parts_lem_example = parts_lem 4096 (set_queue 10) tt (omega arith)

elements_lem_example :
    ((length ind : ℕ) → (item 4096 (byteslength length) ind % 8 ≡ 0) ↔ (byteslength length % 4 ≡ 0))
    × ((length m : ℕ)
        → byteslength length % 16 ≢ 0
        → worker_monitor 4096 (byteslength length) m % 32 ≢ 0)
    × ((capacity i : ℕ)
        → byteslength capacity % 16 ≢ 0
        → broadcast_client 4096 (byteslength capacity) i % 64 ≢ 0)
    × ((alignment ch it : ℕ) → chunk_item 4096 (chunk_size alignment) ch it % 8 ≡ 0)
    × ((i : ℕ) → identifier 4096 i % 8 ≡ 0)
elements_lem_example = elements_lem 4096 refl
