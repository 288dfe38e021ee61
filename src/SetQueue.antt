-- ===== src/SetQueue.antt =====
-- utilities/src/common/setqueue.c and the macros of utilities/include/mcmp/util/setqueue.h: a bounded
-- queue of distinct indices, with several producers and consumers. One step of `push_step` and
-- `take_step` is one atomic access; a test between two of them belongs to the one before it.
pub mod Spec
pub mod Once
pub mod Holds
pub mod PushOnce
pub mod TakeOnce
pub mod Calls
pub mod Create
pub mod Inside
pub mod Alone
pub mod Overtaken
pub mod Steps
pub mod Threads
pub mod Single
mod Tests
use mcmp.Common.{
  ℕ, zero, suc, ◌+◌, ◌-◌, ◌*◌, ◌/◌, ◌%◌, ◌^◌, Bool, true, false, not, Option, none, some, List, [],
  ◌∷◌, ◌==◌, leb, if◌then◌else◌, size_add, bit_and, bit_or, get_or, set,
}
use mcmp.Bits.{invert}
use mcmp.Ring.{next_index}
use mcmp.Status.{Status, success, overflow, out_of_mem, isempty, alrop, retryop}
use mcmp.Bitmap.{BitMap, clean_order, disable_bit}
use mcmp.Bitmap.Atomic.{exchange_byte, atomic_is_enabled_bit}

-- `mcmpsetqueue_header_t`, the two bitmaps behind it, and the items behind them.
pub record SetQueue : Type 0 where
  pub byteslength : ℕ
  pub bitslength : ℕ
  pub head : ℕ
  pub tail : ℕ
  pub values : BitMap
  pub ready : BitMap
  pub items : List ℕ

-- `mcmpSetQueueCreate`; `memory` is what `malloc` left in the items, or `none` for NULL. The status is
-- what it stores to `mcmpstret` then.
pub data Created : Type 0 where
  null : Status → Created
  made : SetQueue → Created

unfoldable pub create : Option (List ℕ) → ℕ → Created
create none requested = null out_of_mem
create (some memory) requested =
    let byteslength = size_add requested 7 / 8 in
    made (record {
      byteslength = byteslength;
      bitslength = requested;
      head = 0;
      tail = 0;
      values = clean_order byteslength;
      ready = clean_order byteslength;
      items = memory;
    })

-- The byte of a bitmap in which bit `i` lies, and the mask of the bit in it.
abbrev pub byte_of : BitMap → ℕ → ℕ
byte_of bitmap i = get_or bitmap (i / 8) 0

abbrev pub mask_of : ℕ → ℕ
mask_of i = 2 ^ (i % 8)

-- Where a thread stands in `mcmpSetQueuePush`, with the locals that are live there.
pub data PushPc : Type 0 where
  start : PushPc
  marking : (expected : ℕ) → PushPc
  looking : PushPc
  looked : (tail : ℕ) → PushPc
  checking : (index next : ℕ) → PushPc
  undoing : PushPc
  claiming : (index next : ℕ) → PushPc
  storing : (index : ℕ) → PushPc
  readying : (index : ℕ) → PushPc
  flagging : (index expected : ℕ) → PushPc
  done : Status → PushPc

-- The outcome of the exchanges of a push: of the byte of `values`, and of that of `ready`.
abbrev pub marked : SetQueue → Bool × BitMap → SetQueue × PushPc
marked squ (true, values) = (record squ { values = values }, PushPc.looking)
marked squ (false, values) = (squ, PushPc.done retryop)

abbrev flagged : SetQueue → ℕ → Bool × BitMap → SetQueue × PushPc
flagged squ index (true, ready) = (record squ { ready = ready }, PushPc.done success)
flagged squ index (false, ready) = (squ, PushPc.readying index)

-- `mcmpSetQueuePush` of `ind`. In `checking`, `next` is the tail that was loaded.
unfoldable pub push_step : ℕ → SetQueue → PushPc → SetQueue × PushPc
push_step ind squ PushPc.start =
    if leb squ.bitslength ind
    then (squ, PushPc.done overflow)
    else if bit_and (byte_of squ.values ind) (mask_of ind) == 0
    then (squ, PushPc.marking (byte_of squ.values ind))
    else (squ, PushPc.done alrop)
push_step ind squ (PushPc.marking expected) =
    marked squ (exchange_byte squ.values (ind / 8) expected (bit_or expected (mask_of ind)))
push_step ind squ PushPc.looking = (squ, PushPc.looked squ.tail)
push_step ind squ (PushPc.looked tail) =
    let next = next_index squ.bitslength squ.head in
    (squ, if next == tail then PushPc.checking squ.head next else PushPc.claiming squ.head next)
push_step ind squ (PushPc.checking index next) = (
  squ,
  if atomic_is_enabled_bit squ.ready next then PushPc.undoing else PushPc.claiming index next,
)
push_step ind squ PushPc.undoing =
    (record squ { values = disable_bit squ.values ind }, PushPc.done overflow)
push_step ind squ (PushPc.claiming index next) =
    if squ.head == index
    then (record squ { head = next }, PushPc.storing index)
    else (squ, PushPc.looking)
push_step ind squ (PushPc.storing index) =
    (record squ { items = set squ.items index ind }, PushPc.readying index)
push_step ind squ (PushPc.readying index) = (squ, PushPc.flagging index (byte_of squ.ready index))
push_step ind squ (PushPc.flagging index expected) =
    flagged squ index
      (exchange_byte squ.ready (index / 8) expected (bit_or expected (mask_of index)))
push_step ind squ (PushPc.done status) = (squ, PushPc.done status)

-- Where a thread stands in `mcmpSetQueueTake`. `item` is what it has stored to `*ind`.
pub data TakePc : Type 0 where
  start : TakePc
  loaded : (index : ℕ) → TakePc
  probing : (index : ℕ) → TakePc
  claiming : (index : ℕ) → TakePc
  reading : (index : ℕ) → TakePc
  clearing : (index item : ℕ) → TakePc
  unmarking : (index item expected : ℕ) → TakePc
  lowering : (index item : ℕ) → TakePc
  unflagging : (index item expected : ℕ) → TakePc
  done : Status → Option ℕ → TakePc

abbrev unmarked : SetQueue → ℕ → ℕ → Bool × BitMap → SetQueue × TakePc
unmarked squ index item (true, values) =
    (record squ { values = values }, TakePc.lowering index item)
unmarked squ index item (false, values) = (squ, TakePc.clearing index item)

abbrev unflagged : SetQueue → ℕ → ℕ → Bool × BitMap → SetQueue × TakePc
unflagged squ index item (true, ready) =
    (record squ { ready = ready }, TakePc.done success (some item))
unflagged squ index item (false, ready) = (squ, TakePc.lowering index item)

-- `mcmpSetQueueTake`
unfoldable pub take_step : SetQueue → TakePc → SetQueue × TakePc
take_step squ TakePc.start = (squ, TakePc.loaded squ.tail)
take_step squ (TakePc.loaded index) =
    (squ, if index == squ.head then TakePc.done isempty none else TakePc.probing index)
take_step squ (TakePc.probing index) = (
  squ,
  if bit_and (byte_of squ.ready index) (mask_of index) == 0
      then TakePc.done retryop none
      else TakePc.claiming index,
)
take_step squ (TakePc.claiming index) =
    if squ.tail == index
    then (record squ { tail = next_index squ.bitslength index }, TakePc.reading index)
    else (squ, TakePc.start)
take_step squ (TakePc.reading index) = (squ, TakePc.clearing index (get_or squ.items index 0))
take_step squ (TakePc.clearing index item) =
    (squ, TakePc.unmarking index item (byte_of squ.values item))
take_step squ (TakePc.unmarking index item expected) =
    unmarked squ index item
      (exchange_byte squ.values (item / 8) expected (bit_and expected (invert 8 (mask_of item))))
take_step squ (TakePc.lowering index item) =
    (squ, TakePc.unflagging index item (byte_of squ.ready index))
take_step squ (TakePc.unflagging index item expected) =
    unflagged squ index item
      (exchange_byte squ.ready (index / 8) expected (bit_and expected (invert 8 (mask_of index))))
take_step squ (TakePc.done status item) = (squ, TakePc.done status item)
