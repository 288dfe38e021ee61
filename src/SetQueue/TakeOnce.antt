-- ===== src/SetQueue/TakeOnce.antt =====
-- One take by one thread, on the set queue and on the list of indices.
use mcmp.Common.{
  ℕ, ◌≡◌, ◌≢◌, refl, sym, ◌∙◌, arith, true, false, List, [], ◌∷◌, ◌==◌, bit_and, get_or,
}
use mcmp.Ring.{next_index-eq-after, after, contents, contents-take, held-empty}
use mcmp.Bitmap.{disable_bit}
use mcmp.Bitmap.Laws.{bit_at-disable_bit, disable_bit-IsBytes, length-disable_bit, byte_test}
use mcmp.SetQueue.{SetQueue, byte_of, mask_of}
use mcmp.SetQueue.Spec
use mcmp.SetQueue.Spec.{
  mem, Distinct, mem-cons, mem-append_one, Distinct-append_one, Each-append_one,
}
use mcmp.SetQueue.Once.{take_once}
use mcmp.SetQueue.Holds.{Holds, Takes, count}

module _ (squ : SetQueue) (x : ℕ) (q : List ℕ) (v : Holds squ (x ∷ q)) where
  open squ use {bitslength as n, head, tail, values, ready, items}

  some_item : tail ≢ head
  some_item e =
      omega (arith, count squ (x ∷ q) v, (held-empty items n 0 tail head v.tail_in v.head_in).0 e)

  split : get_or items tail 0 ∷ contents items n 0 (after n tail) head ≡ x ∷ q
  split = sym (contents-take items n 0 tail head v.tail_in v.head_in some_item) ∙ v.items_held

  oldest : get_or items tail 0 ≡ x
  oldest = cc split

  drop-Holds :
      Holds
        (record squ {
          tail = after n tail;
          values = disable_bit values x;
          ready = disable_bit ready tail;
        })
        q
  drop-Holds = record {
    two = v.two;
    fits = v.fits;
    head_in = v.head_in;
    tail_in = ground (arith, v.tail_in);
    room = v.room;
    values_room = omega (arith, length-disable_bit values x, v.values_room);
    ready_room = omega (arith, length-disable_bit ready tail, v.ready_room);
    values_bytes = disable_bit-IsBytes values x v.values_bytes;
    ready_bytes = disable_bit-IsBytes ready tail v.ready_bytes;
    items_held = cc split;
    in_set = λ w h. ground (
      arith,
      bit_at-disable_bit values x w (omega (arith, v.in_range.0, v.values_room)),
      v.in_set w h,
      mem-cons w x q,
      v.distinct.0,
    );
    is_ready = λ i h. ground (
      arith,
      bit_at-disable_bit ready tail i (omega (arith, v.tail_in, v.ready_room)),
      v.is_ready i h,
      v.head_in,
      v.tail_in,
      some_item,
    );
    distinct = v.distinct.1;
    in_range = v.in_range.1;
  }

pub take_once-Takes :
    (squ : SetQueue) (q : List ℕ) → Holds squ q → Takes (take_once squ) (Spec.take q)
unfolding take_once Spec.take
take_once-Takes squ [] v =
    let none_left : (squ.tail == squ.head) ≡ true = ground (
      arith,
      (held-empty squ.items squ.bitslength 0 squ.tail squ.head v.tail_in v.head_in).1
          (sym (count squ [] v)),
    ) in
    rw none_left (refl, refl, v)
take_once-Takes squ (x ∷ q) v =
    let more : (squ.tail == squ.head) ≡ false = ground (arith, some_item squ x q v) in
    let there : (bit_and (byte_of squ.ready squ.tail) (mask_of squ.tail) == 0) ≡ false = ground (
      arith,
      byte_test squ.ready squ.tail v.ready_bytes,
      v.is_ready squ.tail v.tail_in,
      some_item squ x q v,
      v.head_in,
      v.tail_in,
    ) in
    let next = next_index-eq-after squ.bitslength squ.tail v.tail_in (omega (arith, v.fits)) in
    rw (more, there, oldest squ x q v, next) (refl, refl, drop-Holds squ x q v)
