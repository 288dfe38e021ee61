-- ===== src/SetQueue/Create.antt =====
-- What `mcmpSetQueueCreate` makes holds nothing.
use mcmp.Common.{ℕ, ◌/◌, ◌^◌, ◌≤◌, ◌<◌, ◌≡◌, refl, arith, some, List, [], size_add, length}
use mcmp.Bitmap.{clean_order}
use mcmp.Bitmap.Laws.{bit_at-clean_order, length-clean_order, clean_order-IsBytes}
use mcmp.SetQueue.{SetQueue, Created, null, made, create}
use mcmp.SetQueue.Holds.{Holds}

-- What is made.
abbrev pub empty : (memory : List ℕ) → (requested : ℕ) → SetQueue
empty memory requested = record {
  byteslength = size_add requested 7 / 8;
  bitslength = requested;
  head = 0;
  tail = 0;
  values = clean_order (size_add requested 7 / 8);
  ready = clean_order (size_add requested 7 / 8);
  items = memory;
}

pub empty-Holds :
    (memory : List ℕ) (requested : ℕ)
    → 2 ≤ requested
    → requested < 2 ^ 60
    → requested ≤ length memory
    → Holds (empty memory requested) []
unfolding mcmp.SetQueue.Spec.mem
empty-Holds memory requested two fits room =
    let bytes = size_add requested 7 / 8 in
    record {
      two = two;
      fits = fits;
      head_in = omega arith;
      tail_in = omega arith;
      room = room;
      values_room = omega (arith, length-clean_order bytes);
      ready_room = omega (arith, length-clean_order bytes);
      values_bytes = clean_order-IsBytes bytes;
      ready_bytes = clean_order-IsBytes bytes;
      items_held = refl;
      in_set = λ v h. bit_at-clean_order bytes v;
      is_ready = λ i h. ground (arith, bit_at-clean_order bytes i);
      distinct = tt;
      in_range = tt;
    }

-- `mcmpSetQueueCreate`, given memory for at least two items, makes a set queue that holds no index.
pub create-Holds :
    (memory : List ℕ) (requested : ℕ)
    → 2 ≤ requested
    → requested < 2 ^ 60
    → requested ≤ length memory
    → (squ : SetQueue) × (create (some memory) requested ≡ made squ)
      × (squ.bitslength ≡ requested)
      × Holds squ []
unfolding create
create-Holds memory requested two fits room =
    (empty memory requested, refl, refl, empty-Holds memory requested two fits room)
