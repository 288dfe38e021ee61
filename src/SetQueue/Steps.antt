-- ===== src/SetQueue/Steps.antt =====
-- One step of a push or a take keeps everything inside.
use mcmp.Common.{ℕ, ◌/◌, ◌<◌, ◌≡◌, inl, inr, arith, ◌==◌, leb, Bool-cases, bit_and, length-set}
use mcmp.Ring.{next_index}
use mcmp.Bitmap.{bit_at}
use mcmp.Bitmap.Laws.{length-disable_bit, byte_test, bit_at-le}
use mcmp.Bitmap.Atomic.{atomic_is_enabled_bit}
use mcmp.SetQueue.{SetQueue, byte_of, mask_of, PushPc, push_step, TakePc, take_step}
use mcmp.SetQueue.Inside.{
  IsInside, PushInside, TakeInside, Keeps, enable_exchange, disable_exchange, next_index-lt,
  values-IsInside, store-IsInside, flag-IsInside, unflag-IsInside,
}

abbrev PushKeeps : ℕ → ℕ → SetQueue → SetQueue × PushPc → Type 0
PushKeeps n ind squ (squ', pc) = IsInside n squ' × PushInside n squ' ind pc × Keeps n squ squ'

abbrev TakeKeeps : ℕ → SetQueue → SetQueue × TakePc → Type 0
TakeKeeps n squ (squ', pc) = IsInside n squ' × TakeInside n squ' pc × Keeps n squ squ'

module _ (n : ℕ) (squ : SetQueue) (v : IsInside n squ) where
  pub push_step-PushKeeps :
      (ind : ℕ) (pc : PushPc) → PushInside n squ ind pc → PushKeeps n ind squ (push_step ind squ pc)
  unfolding push_step
  push_step-PushKeeps ind PushPc.start p = elim (Bool-cases (leb squ.bitslength ind)) [
    | inl out ↦ rw out (v, tt, λ j h. h)
    | inr inside ↦ elim (Bool-cases (bit_and (byte_of squ.values ind) (mask_of ind) == 0)) [
      | inl absent ↦ rw (inside, absent) (v, ground (arith, v.bits), λ j h. h)
      | inr there ↦ rw (inside, there) (v, tt, λ j h. h)
    ]
  ]
  push_step-PushKeeps ind (PushPc.marking expected) p =
      elim (Bool-cases (byte_of squ.values ind == expected)) [
        | inl same ↦
            rw same (values-IsInside n squ v _ (length-set squ.values (ind / 8) _), p, λ j h. h)
        | inr differ ↦ rw differ (v, tt, λ j h. h)
      ]
  push_step-PushKeeps ind PushPc.looking p = (v, p, λ j h. h)
  push_step-PushKeeps ind (PushPc.looked tail) p =
      let next_in : next_index squ.bitslength squ.head < n =
        rw v.bits (next_index-lt n squ.head v.head_in) in
      elim (Bool-cases (next_index squ.bitslength squ.head == tail)) [
        | inl meet ↦ rw meet (v, (p, v.head_in, next_in), λ j h. h)
        | inr apart ↦ rw apart (v, (p, v.head_in, next_in), λ j h. h)
      ]
  push_step-PushKeeps ind (PushPc.checking index next) p =
      elim (Bool-cases (atomic_is_enabled_bit squ.ready next)) [
        | inl full ↦ rw full (v, p.0, λ j h. h)
        | inr free ↦ rw free (v, p, λ j h. h)
      ]
  push_step-PushKeeps ind PushPc.undoing p =
      (values-IsInside n squ v _ (length-disable_bit squ.values ind), tt, λ j h. h)
  push_step-PushKeeps ind (PushPc.claiming index next) p = elim (Bool-cases (squ.head == index)) [
    | inl same ↦ rw same (
      record {
        bits = v.bits;
        head_in = p.2;
        tail_in = v.tail_in;
        room = v.room;
        values_room = v.values_room;
        ready_room = v.ready_room;
        ready_bytes = v.ready_bytes;
        ready_cells = v.ready_cells;
      },
      (p.0, p.1),
      λ j h. h,
    )
    | inr differ ↦ rw differ (v, p.0, λ j h. h)
  ]
  push_step-PushKeeps ind (PushPc.storing index) p =
      let (whole, keeps, cell) = store-IsInside n squ v ind index p.0 p.1 in
      (whole, (p.1, cell), keeps)
  push_step-PushKeeps ind (PushPc.readying index) p = (v, p, λ j h. h)
  push_step-PushKeeps ind (PushPc.flagging index expected) p =
      elim (Bool-cases (byte_of squ.ready index == expected)) [
        | inl same ↦
            rw (same, enable_exchange squ.ready index expected (ground arith))
              (flag-IsInside n squ v index p.0 p.1, tt, λ j h. h)
        | inr differ ↦ rw differ (v, p, λ j h. h)
      ]
  push_step-PushKeeps ind (PushPc.done status) p = (v, tt, λ j h. h)

  pub take_step-TakeKeeps : (pc : TakePc) → TakeInside n squ pc → TakeKeeps n squ (take_step squ pc)
  unfolding take_step
  take_step-TakeKeeps TakePc.start p = (v, v.tail_in, λ j h. h)
  take_step-TakeKeeps (TakePc.loaded index) p = elim (Bool-cases (index == squ.head)) [
    | inl empty ↦ rw empty (v, tt, λ j h. h)
    | inr more ↦ rw more (v, p, λ j h. h)
  ]
  take_step-TakeKeeps (TakePc.probing index) p =
      elim (Bool-cases (bit_and (byte_of squ.ready index) (mask_of index) == 0)) [
        | inl unready ↦ rw unready (v, tt, λ j h. h)
        | inr there ↦
            let on : bit_at squ.ready index ≡ 1 =
              ground (arith, byte_test squ.ready index v.ready_bytes, bit_at-le squ.ready index) in
            rw there (v, (p, v.ready_cells index on), λ j h. h)
      ]
  take_step-TakeKeeps (TakePc.claiming index) p = elim (Bool-cases (squ.tail == index)) [
    | inl same ↦ rw same (
      record {
        bits = v.bits;
        head_in = v.head_in;
        tail_in = rw v.bits (next_index-lt n index p.0);
        room = v.room;
        values_room = v.values_room;
        ready_room = v.ready_room;
        ready_bytes = v.ready_bytes;
        ready_cells = v.ready_cells;
      },
      p,
      λ j h. h,
    )
    | inr differ ↦ rw differ (v, tt, λ j h. h)
  ]
  take_step-TakeKeeps (TakePc.reading index) p = (v, p, λ j h. h)
  take_step-TakeKeeps (TakePc.clearing index item) p = (v, p, λ j h. h)
  take_step-TakeKeeps (TakePc.unmarking index item expected) p =
      elim (Bool-cases (byte_of squ.values item == expected)) [
        | inl same ↦
            rw same (values-IsInside n squ v _ (length-set squ.values (item / 8) _), p, λ j h. h)
        | inr differ ↦ rw differ (v, p, λ j h. h)
      ]
  take_step-TakeKeeps (TakePc.lowering index item) p = (v, p, λ j h. h)
  take_step-TakeKeeps (TakePc.unflagging index item expected) p =
      elim (Bool-cases (byte_of squ.ready index == expected)) [
        | inl same ↦
            rw (same, disable_exchange squ.ready index expected (ground arith))
              (unflag-IsInside n squ v index p.0, tt, λ j h. h)
        | inr differ ↦ rw differ (v, p, λ j h. h)
      ]
  take_step-TakeKeeps (TakePc.done status item) p = (v, tt, λ j h. h)

-- What a thread has in hand stays inside under the steps of the others.
pub PushInside-Keeps :
    (n : ℕ) (squ squ' : SetQueue) (ind : ℕ) (pc : PushPc)
    → Keeps n squ squ'
    → PushInside n squ ind pc
    → PushInside n squ' ind pc
PushInside-Keeps n squ squ' ind PushPc.start k p = p
PushInside-Keeps n squ squ' ind (PushPc.marking expected) k p = p
PushInside-Keeps n squ squ' ind PushPc.looking k p = p
PushInside-Keeps n squ squ' ind (PushPc.looked tail) k p = p
PushInside-Keeps n squ squ' ind (PushPc.checking index next) k p = p
PushInside-Keeps n squ squ' ind PushPc.undoing k p = p
PushInside-Keeps n squ squ' ind (PushPc.claiming index next) k p = p
PushInside-Keeps n squ squ' ind (PushPc.storing index) k p = p
PushInside-Keeps n squ squ' ind (PushPc.readying index) k p = (p.0, k index p.1)
PushInside-Keeps n squ squ' ind (PushPc.flagging index expected) k p = (p.0, k index p.1)
PushInside-Keeps n squ squ' ind (PushPc.done status) k p = p

pub TakeInside-Keeps :
    (n : ℕ) (squ squ' : SetQueue) (pc : TakePc)
    → Keeps n squ squ'
    → TakeInside n squ pc
    → TakeInside n squ' pc
TakeInside-Keeps n squ squ' TakePc.start k p = p
TakeInside-Keeps n squ squ' (TakePc.loaded index) k p = p
TakeInside-Keeps n squ squ' (TakePc.probing index) k p = p
TakeInside-Keeps n squ squ' (TakePc.claiming index) k p = (p.0, k index p.1)
TakeInside-Keeps n squ squ' (TakePc.reading index) k p = (p.0, k index p.1)
TakeInside-Keeps n squ squ' (TakePc.clearing index item) k p = p
TakeInside-Keeps n squ squ' (TakePc.unmarking index item expected) k p = p
TakeInside-Keeps n squ squ' (TakePc.lowering index item) k p = p
TakeInside-Keeps n squ squ' (TakePc.unflagging index item expected) k p = p
TakeInside-Keeps n squ squ' (TakePc.done status item) k p = p
