-- ===== src/SetQueue/Overtaken.antt =====
-- Pushes that overtake one which has claimed its cell and not marked it as ready. The test for a full
-- queue asks for the ready bit of the cell at the tail, so it fails to see that the queue is full.
pub mod Lost
use native.Mathlib.Decide.{ℕ_discrete}
use mathlib.Core.Logic.{if_pos, if_neg}
use mathlib.Core.Path.{subst}
use mcmp.Common.{
  ℕ, zero, suc, ◌+◌, ◌-◌, ◌*◌, ◌/◌, ◌^◌, ◌≤◌, ◌<◌, ◌≡◌, ◌≢◌, refl, sym, ap, ◌∙◌, inl, inr, arith,
  true, false, some, none, Option, List, [], ◌&&◌, ◌==◌, leb, if◌then◌else◌, Bool-cases, length,
  bit_and, set, size_add,
}
use mcmp.Ring.{next_index, next_index-eq-after, after}
use mcmp.Status.{Status, success, overflow, isempty, alrop}
use mcmp.Bitmap.{IsBytes, bit_at, enable_bit}
use mcmp.Bitmap.Laws.{
  bit_at-enable_bit, enable_bit-IsBytes, length-enable_bit, byte_test, bit_at-clean_order,
  clean_order-IsBytes, length-clean_order,
}
use mcmp.Bitmap.Atomic.{atomic_is_enabled_bit, atomic_tests_bit}
use mcmp.SetQueue.{SetQueue, byte_of, mask_of, PushPc, push_step, made, create}
use mcmp.SetQueue.Once.{run_push, run_push-eq-push_once, push_once, take_once}
use mcmp.SetQueue.Threads.{Call, pushing, Shared, assign, Moves, none_yet, then_one, begin_push}
use mcmp.SetQueue.Alone.{alone, alone-run_push, alone-others, alone-Moves}

-- Every index is marked, and the queue looks empty.
pub record IsStuck (n : ℕ) (squ : SetQueue) : Type 0 where
  pub bits : squ.bitslength ≡ n
  pub meet : squ.tail ≡ squ.head
  pub values_bytes : IsBytes squ.values
  pub all : (j : ℕ) → j < n → bit_at squ.values j ≡ 1

-- The queue while thread 0 is about to store to cell 0 and `k` cells are claimed.
pub record Claimed (n k : ℕ) (squ : SetQueue) : Type 0 where
  pub bits : squ.bitslength ≡ n
  pub head_at : squ.head ≡ (if k == n then 0 else k)
  pub tail_at : squ.tail ≡ 0
  pub values_room : n ≤ 8 * length squ.values
  pub ready_room : n ≤ 8 * length squ.ready
  pub values_bytes : IsBytes squ.values
  pub ready_bytes : IsBytes squ.ready
  pub unready : bit_at squ.ready 0 ≡ 0
  pub absent : (j : ℕ) → k ≤ j → bit_at squ.values j ≡ 0
  pub present : (j : ℕ) → j < k → bit_at squ.values j ≡ 1

self : (a : ℕ) → (a == a) ≡ true
self a = ground arith

module _ (n : ℕ) (small : n < 2 ^ 60) where
  pub claim :
      (k : ℕ) (squ : SetQueue)
      → 0 < k
      → k < n
      → Claimed n k squ
      → ((push_once k squ).1 ≡ success) × Claimed n (k + 1) (push_once k squ).0
  unfolding push_once
  claim k squ some_claimed free v =
      let inside : leb squ.bitslength k ≡ false = ground (arith, v.bits) in
      let new : (bit_and (byte_of squ.values k) (mask_of k) == 0) ≡ true =
        ground (arith, byte_test squ.values k v.values_bytes, v.absent k (omega arith)) in
      let at : squ.head ≡ k = ground (arith, v.head_at) in
      let moved : next_index squ.bitslength squ.head ≡ after n k =
        rw (v.bits, at) (next_index-eq-after n k free (omega arith)) in
      rw (inside, new, unseen squ v)
        (
          refl,
          record {
            bits = v.bits;
            head_at = moved;
            tail_at = v.tail_at;
            values_room = omega (arith, v.values_room, length-enable_bit squ.values k);
            ready_room = omega (arith, v.ready_room, length-enable_bit squ.ready squ.head);
            values_bytes = enable_bit-IsBytes squ.values k v.values_bytes;
            ready_bytes = enable_bit-IsBytes squ.ready squ.head v.ready_bytes;
            unready = ground (
              arith,
              bit_at-enable_bit squ.ready squ.head 0 (omega (arith, at, v.ready_room)),
              v.unready,
            );
            absent = λ j beyond. ground (
              arith,
              bit_at-enable_bit squ.values k j (omega (arith, v.values_room)),
              v.absent j (omega arith),
            );
            present = λ j below. elim (ℕ_discrete k j) [
              | yes same ↦
                  ground (arith, bit_at-enable_bit squ.values k j (omega (arith, v.values_room)))
              | no differ ↦ ground (
                arith,
                bit_at-enable_bit squ.values k j (omega (arith, v.values_room)),
                v.present j (omega arith),
              )
            ];
          },
        )
    where
      unseen :
          (squ : SetQueue)
          → Claimed n k squ
          → ((next_index squ.bitslength squ.head == squ.tail)
              && atomic_is_enabled_bit squ.ready (next_index squ.bitslength squ.head))
            ≡ false
      unseen squ v = elim (Bool-cases (next_index squ.bitslength squ.head == squ.tail)) [
        | inr apart ↦ rw apart refl
        | inl meet ↦
            let zeroth : next_index squ.bitslength squ.head ≡ 0 = ground (arith, meet, v.tail_at) in
            elim (Bool-cases
              (atomic_is_enabled_bit squ.ready (next_index squ.bitslength squ.head))) [
                | inr off ↦ rw (meet, off) refl
                | inl on ↦
                    let set_bit = (atomic_tests_bit squ.ready _ v.ready_bytes).0.0 on in
                    absurd (
                      omega (
                        arith,
                        v.unready,
                        subst (λ (i : ℕ). bit_at squ.ready i ≡ 1) zeroth set_bit,
                      ))
              ]
      ]

  first_next :
      (squ : SetQueue) → 2 ≤ n → Claimed n 0 squ → next_index squ.bitslength squ.head ≡ after n 0
  first_next squ two v =
      let at : squ.head ≡ 0 = ground (arith, v.head_at) in
      rw (v.bits, at) (next_index-eq-after n 0 (omega arith) (omega arith))

  -- Thread 0 claims the first cell.
  pub opens :
      (squ : SetQueue)
      → 2 ≤ n
      → Claimed n 0 squ
      → run_push 5 0 squ PushPc.start ≡ (
        record squ { values = enable_bit squ.values 0; head = next_index squ.bitslength squ.head },
        PushPc.storing squ.head,
      )
  unfolding run_push push_step enable_bit
  opens squ two v =
      let inside : leb squ.bitslength 0 ≡ false = ground (arith, v.bits) in
      let new : (bit_and (byte_of squ.values 0) (mask_of 0) == 0) ≡ true =
        ground (arith, byte_test squ.values 0 v.values_bytes, v.absent 0 (omega arith)) in
      let apart : (next_index squ.bitslength squ.head == squ.tail) ≡ false =
        ground (arith, first_next squ two v, v.tail_at) in
      rw (inside, new, self (byte_of squ.values 0), apart, self squ.head)

  pub opened :
      (squ : SetQueue)
      → 2 ≤ n
      → Claimed n 0 squ
      → ((run_push 5 0 squ PushPc.start).1 ≡ PushPc.storing 0)
        × Claimed n 1 (run_push 5 0 squ PushPc.start).0
  opened squ two v =
      let at : squ.head ≡ 0 = ground (arith, v.head_at) in
      rw (opens squ two v) (
        ap PushPc.storing at,
        record {
          bits = v.bits;
          head_at = first_next squ two v;
          tail_at = v.tail_at;
          values_room = omega (arith, v.values_room, length-enable_bit squ.values 0);
          ready_room = v.ready_room;
          values_bytes = enable_bit-IsBytes squ.values 0 v.values_bytes;
          ready_bytes = v.ready_bytes;
          unready = v.unready;
          absent = λ j beyond. ground (
            arith,
            bit_at-enable_bit squ.values 0 j (omega (arith, v.values_room)),
            v.absent j (omega arith),
          );
          present = λ j below.
              ground (arith, bit_at-enable_bit squ.values 0 j (omega (arith, v.values_room)));
        },
      )

  -- It stores its index and marks the cell.
  pub closes :
      (squ : SetQueue)
      → run_push 3 0 squ (PushPc.storing 0) ≡ (
        record squ { items = set squ.items 0 0; ready = enable_bit squ.ready 0 },
        PushPc.done success,
      )
  unfolding run_push push_step enable_bit
  closes squ = rw (self (byte_of squ.ready 0))
