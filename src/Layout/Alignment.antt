-- ===== src/Layout/Alignment.antt =====
-- The elements of the arrays behind the bitmaps, and the alignment that their types ask for: 8 for an
-- index or a pointer, 32 for `struct McmchWorkerMonitor`, 64 for `struct McmchClientImpl`.
use mcmp.Common.{ℕ, ◌*◌, ◌/◌, ◌%◌, ◌≡◌, ◌≢◌, ◌↔◌, ap, ◌∙◌, arith}
use mcmp.Layout.{
  byteslength, item, chunk_item, chunk_size, worker_monitor, identifier, broadcast_client,
}

eighths : (ch size part : ℕ) → size ≡ 8 * part → ch * size ≡ 8 * (ch * part)
eighths ch size part e = ap (λ (t : ℕ). ch * t) e ∙ grind arith

module _ (start : ℕ) (aligned : start % 16 ≡ 0) where
  item-aligned :
      (length ind : ℕ)
      → (item start (byteslength length) ind % 8 ≡ 0) ↔ (byteslength length % 4 ≡ 0)
  item-aligned length ind = ((λ h. omega arith), (λ h. omega arith))

  monitor-misaligned :
      (length m : ℕ)
      → byteslength length % 16 ≢ 0
      → worker_monitor start (byteslength length) m % 32 ≢ 0
  monitor-misaligned length m h e = h (omega arith)

  client-misaligned :
      (capacity i : ℕ)
      → byteslength capacity % 16 ≢ 0
      → broadcast_client start (byteslength capacity) i % 64 ≢ 0
  client-misaligned capacity i h e = h (omega arith)

  chunk_item-aligned : (alignment ch it : ℕ) → chunk_item start (chunk_size alignment) ch it % 8 ≡ 0
  chunk_item-aligned alignment ch it =
      let eighth : chunk_size alignment ≡ 8 * (chunk_size alignment / 8) = omega arith in
      let multiple : ch * chunk_size alignment ≡ 8 * (ch * (chunk_size alignment / 8)) =
        eighths ch (chunk_size alignment) (chunk_size alignment / 8) eighth in
      omega (arith, multiple)

  -- In a block at a multiple of 16, as malloc gives, the indices of a set queue are aligned exactly
  -- where the length of its bitmaps in bytes is a multiple of 4; where that of a worker's or a
  -- broadcast's is no multiple of 16, none of their monitors and none of their clients is; and the
  -- items of a chunked queue and the identifiers of a pool always are.
  pub elements_lem :
      ((length ind : ℕ)
        → (item start (byteslength length) ind % 8 ≡ 0) ↔ (byteslength length % 4 ≡ 0))
      × ((length m : ℕ)
          → byteslength length % 16 ≢ 0
          → worker_monitor start (byteslength length) m % 32 ≢ 0)
      × ((capacity i : ℕ)
          → byteslength capacity % 16 ≢ 0
          → broadcast_client start (byteslength capacity) i % 64 ≢ 0)
      × ((alignment ch it : ℕ) → chunk_item start (chunk_size alignment) ch it % 8 ≡ 0)
      × ((i : ℕ) → identifier start i % 8 ≡ 0)
  elements_lem =
      (item-aligned, monitor-misaligned, client-misaligned, chunk_item-aligned, λ i. omega arith)
