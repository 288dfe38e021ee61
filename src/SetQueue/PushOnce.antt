-- ===== src/SetQueue/PushOnce.antt =====
-- One push by one thread, on the set queue and on the list of indices.
use mcmp.Common.{
  ℕ, ◌+◌, ◌<◌, ◌≡◌, ◌≢◌, ◌↔◌, refl, ap, ◌∙◌, inl, inr, arith, true, false, List, [], ◌∷◌, ◌++◌,
  ◌==◌, leb, Bool-cases, bit_and, length, length-set, set,
}
use mcmp.Ring.{next_index, next_index-eq-after, after, contents-push, held-full}
use mcmp.Bitmap.{bit_at, enable_bit, disable_bit}
use mcmp.Bitmap.Laws.{
  bit_at-enable_bit, bit_at-disable_bit, enable_bit-IsBytes, disable_bit-IsBytes, length-enable_bit,
  length-disable_bit, byte_test,
}
use mcmp.Bitmap.Atomic.{atomic_is_enabled_bit, atomic_tests_bit}
use mcmp.SetQueue.{SetQueue, byte_of, mask_of}
use mcmp.SetQueue.Spec
use mcmp.SetQueue.Spec.{
  mem, Distinct, mem-cons, mem-append_one, Distinct-append_one, Each-append_one,
}
use mcmp.SetQueue.Once.{push_once}
use mcmp.SetQueue.Holds.{Holds, Pushes, count}

module _ (squ : SetQueue) (q : List ℕ) (v : Holds squ q) where
  open squ use {bitslength as n, head, tail, values, ready, items}

  moved : next_index n head ≡ after n head
  moved = next_index-eq-after n head v.head_in (omega (arith, v.fits))

  -- A new index.
  append-Holds :
      (x : ℕ)
      → x < n
      → mem x q ≡ false
      → length q + 1 ≢ n
      → Holds
          (record squ {
            values = enable_bit values x;
            head = after n head;
            items = set items head x;
            ready = enable_bit ready head;
          })
          (q ++ (x ∷ []))
  append-Holds x below new more =
      let apart : after n head ≢ tail = λ (e : after n head ≡ tail).
        more
          (omega (arith, count squ q v, (held-full items n 0 tail head v.tail_in v.head_in).0 e)) in
      record {
        two = v.two;
        fits = v.fits;
        head_in = ground (arith, v.head_in);
        tail_in = v.tail_in;
        room = omega (arith, length-set items head x, v.room);
        values_room = omega (arith, length-enable_bit values x, v.values_room);
        ready_room = omega (arith, length-enable_bit ready head, v.ready_room);
        values_bytes = enable_bit-IsBytes values x v.values_bytes;
        ready_bytes = enable_bit-IsBytes ready head v.ready_bytes;
        items_held =
            contents-push items n 0 tail head v.tail_in v.head_in x v.room apart
            ∙ ap (λ (l : List ℕ). l ++ (x ∷ [])) v.items_held;
        in_set = λ w h. ground (
          arith,
          bit_at-enable_bit values x w (omega (arith, v.values_room)),
          mem-append_one w x q,
          v.in_set w h,
        );
        is_ready = λ i h. ground (
          arith,
          bit_at-enable_bit ready head i (omega (arith, v.head_in, v.ready_room)),
          v.is_ready i h,
          v.head_in,
          v.tail_in,
        );
        distinct = Distinct-append_one q x v.distinct new;
        in_range = Each-append_one n x q v.in_range below;
      }

  -- The mark of an index that is not in the queue is taken back.
  unmark-Holds :
      (x : ℕ)
      → x < n
      → mem x q ≡ false
      → Holds (record squ { values = disable_bit (enable_bit values x) x }) q
  unmark-Holds x below new = record {
    two = v.two;
    fits = v.fits;
    head_in = v.head_in;
    tail_in = v.tail_in;
    room = v.room;
    values_room = omega (
      arith,
      length-disable_bit (enable_bit values x) x,
      length-enable_bit values x,
      v.values_room,
    );
    ready_room = v.ready_room;
    values_bytes =
        disable_bit-IsBytes (enable_bit values x) x (enable_bit-IsBytes values x v.values_bytes);
    ready_bytes = v.ready_bytes;
    items_held = v.items_held;
    in_set = λ w h. ground (
      arith,
      bit_at-disable_bit (enable_bit values x) x w
          (omega (arith, length-enable_bit values x, v.values_room)),
      bit_at-enable_bit values x w (omega (arith, v.values_room)),
      v.in_set w h,
      new,
    );
    is_ready = v.is_ready;
    distinct = v.distinct;
    in_range = v.in_range;
  }

  absent_iff : (x : ℕ) → x < n → (bit_and (byte_of values x) (mask_of x) ≡ 0) ↔ (mem x q ≡ false)
  absent_iff x below = ground (arith, byte_test values x v.values_bytes, v.in_set x below)

  -- Where the next cell is the tail, the tail's cell is ready.
  tail_ready : next_index n head ≡ tail → atomic_is_enabled_bit ready (next_index n head) ≡ true
  tail_ready e = rw e ((atomic_tests_bit ready tail v.ready_bytes).0.1 at_tail)
    where
      at_tail : bit_at ready tail ≡ 1
      at_tail = ground (arith, v.is_ready tail v.tail_in, moved, v.two, v.head_in, v.tail_in)

  full_iff : (next_index n head ≡ tail) ↔ (length q + 1 ≡ n)
  full_iff =
      rw moved (ground (arith, count squ q v, held-full items n 0 tail head v.tail_in v.head_in))

  -- A push by one thread has returned after nine steps ...
  pub push_once-Pushes : (x : ℕ) → Pushes (push_once x squ) (Spec.push n q x)
  unfolding push_once Spec.push
  push_once-Pushes x = elim (Bool-cases (leb n x)) [
    | inl out ↦ rw out (refl, v)
    | inr inside ↦
        let below : x < n = ground arith in
        elim (Bool-cases (mem x q)) [
          | inl old ↦
              let held_bit : (bit_and (byte_of values x) (mask_of x) == 0) ≡ false =
                ground (arith, absent_iff x below) in
              rw (inside, held_bit, old) (refl, v)
          | inr new ↦
              let free_bit : (bit_and (byte_of values x) (mask_of x) == 0) ≡ true =
                ground (arith, absent_iff x below) in
              elim (Bool-cases (length q + 1 == n)) [
                | inl full ↦
                    let meet : next_index n head ≡ tail = full_iff.1 (ground arith) in
                    let meet_test : (next_index n head == tail) ≡ true = ground arith in
                    rw (inside, free_bit, new, full, meet_test, tail_ready meet)
                      (refl, unmark-Holds x below new)
                | inr more ↦
                    let apart : (next_index n head == tail) ≡ false = ground (arith, full_iff) in
                    rw (inside, free_bit, new, more, apart, moved)
                      (refl, append-Holds x below new (λ e. ground arith))
              ]
        ]
  ]
