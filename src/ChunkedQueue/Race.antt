-- ===== src/ChunkedQueue/Race.antt =====
-- A push moves the head before it stores the item, so that a take can come between the two.
use mcmp.Common.{
  ℕ, ◌≤◌, ◌≡◌, refl, ap, ◌∙◌, arith, true, false, some, [], ◌∷◌, ◌==◌, get_or, get_elem?,
  get_elem?-eq-get_or,
}
use mcmp.Ring.{next_index, next_index-eq-after, after}
use mcmp.Status.{success}
use mcmp.ChunkedQueue.{Chunk, PushPc, push_step, TakePc, take_step}
use mcmp.ChunkedQueue.SoloPush.{IsValid, run_push}
use mcmp.ChunkedQueue.SoloTake.{run_take}

claim :
    (n item : ℕ) (chunk : Chunk)
    → (chunk.tail == next_index n chunk.head) ≡ false
    → run_push n item (true ∷ true ∷ true ∷ []) chunk PushPc.start
      ≡ (record chunk { head = next_index n chunk.head }, PushPc.writing chunk.head)
unfolding run_push push_step
claim n item chunk free =
    let self : (chunk.head == chunk.head) ≡ true = ground arith in rw (free, self)

fetch :
    (n : ℕ) (chunk : Chunk)
    → (chunk.head == chunk.tail) ≡ false
    → (run_take n (true ∷ true ∷ true ∷ true ∷ []) chunk TakePc.start).1
      ≡ TakePc.done success (get_elem? chunk.items chunk.tail)
unfolding run_take take_step
fetch n chunk some_item =
    let self : (chunk.tail == chunk.tail) ≡ true = ground arith in rw (some_item, self)

-- On every empty valid chunk of at least two items, a take that runs after the exchange of a push, and
-- before its store, succeeds: it gives the content that the cell had before, whatever the item pushed.
pub take_unwritten :
    (n item : ℕ) (chunk : Chunk)
    → IsValid n chunk
    → 2 ≤ n
    → chunk.head ≡ chunk.tail
    → let (between, pc) = run_push n item (true ∷ true ∷ true ∷ []) chunk PushPc.start in
      (pc ≡ PushPc.writing chunk.head)
      × ((run_take n (true ∷ true ∷ true ∷ true ∷ []) between TakePc.start).1
          ≡ TakePc.done success (some (get_or chunk.items chunk.tail 0)))
take_unwritten n item chunk v two empty = rw (claim n item chunk (ground (arith, moved))) (
  refl,
  fetch n (record chunk { head = next_index n chunk.head }) (ground (arith, moved))
      ∙ ap (TakePc.done success)
          (get_elem?-eq-get_or chunk.items chunk.tail 0 (omega (arith, v.tail_in, v.room))),
)
  where
    moved : next_index n chunk.head ≡ after n chunk.head
    moved = next_index-eq-after n chunk.head v.head_in v.fits
