-- ===== src/SetQueue/Inside.antt =====
-- The cells, bits and indices that a step of push or take uses.
use native.Mathlib.Nat.{mod-lt}
use native.Mathlib.Decide.{ℕ_discrete}
use mcmp.Common.{
  ℕ, ◌*◌, ◌/◌, ◌≤◌, ◌<◌, ◌≡◌, refl, arith, bit_and, bit_or, length, length-set, get_or, set,
  get_or-set_self, get_or-set_ne,
}
use mcmp.Bits.{invert}
use mcmp.Ring.{next_index}
use mcmp.Bitmap.{BitMap, IsBytes, bit_at, enable_bit, disable_bit}
use mcmp.Bitmap.Laws.{
  bit_at-enable_bit, bit_at-disable_bit, enable_bit-IsBytes, disable_bit-IsBytes, length-enable_bit,
  length-disable_bit,
}
use mcmp.SetQueue.{SetQueue, mask_of, PushPc, TakePc}

-- Head and tail lie in the queue, its arrays have room for it, and a cell that is marked as ready
-- holds an index of the queue.
pub record IsInside (n : ℕ) (squ : SetQueue) : Type 0 where
  pub bits : squ.bitslength ≡ n
  pub head_in : squ.head < n
  pub tail_in : squ.tail < n
  pub room : n ≤ length squ.items
  pub values_room : n ≤ 8 * length squ.values
  pub ready_room : n ≤ 8 * length squ.ready
  pub ready_bytes : IsBytes squ.ready
  pub ready_cells : (j : ℕ) → bit_at squ.ready j ≡ 1 → get_or squ.items j 0 < n

-- What a push of `ind` has in hand.
abbrev pub PushInside : ℕ → SetQueue → ℕ → PushPc → Type 0
PushInside n squ ind PushPc.start = Unit
PushInside n squ ind (PushPc.marking expected) = ind < n
PushInside n squ ind PushPc.looking = ind < n
PushInside n squ ind (PushPc.looked tail) = ind < n
PushInside n squ ind (PushPc.checking index next) = (ind < n) × (index < n) × (next < n)
PushInside n squ ind PushPc.undoing = ind < n
PushInside n squ ind (PushPc.claiming index next) = (ind < n) × (index < n) × (next < n)
PushInside n squ ind (PushPc.storing index) = (ind < n) × (index < n)
PushInside n squ ind (PushPc.readying index) = (index < n) × (get_or squ.items index 0 < n)
PushInside n squ ind (PushPc.flagging index expected) = (index < n) × (get_or squ.items index 0 < n)
PushInside n squ ind (PushPc.done status) = Unit

abbrev pub TakeInside : ℕ → SetQueue → TakePc → Type 0
TakeInside n squ TakePc.start = Unit
TakeInside n squ (TakePc.loaded index) = index < n
TakeInside n squ (TakePc.probing index) = index < n
TakeInside n squ (TakePc.claiming index) = (index < n) × (get_or squ.items index 0 < n)
TakeInside n squ (TakePc.reading index) = (index < n) × (get_or squ.items index 0 < n)
TakeInside n squ (TakePc.clearing index item) = (index < n) × (item < n)
TakeInside n squ (TakePc.unmarking index item expected) = (index < n) × (item < n)
TakeInside n squ (TakePc.lowering index item) = (index < n) × (item < n)
TakeInside n squ (TakePc.unflagging index item expected) = (index < n) × (item < n)
TakeInside n squ (TakePc.done status item) = Unit

-- A cell that holds an index of the queue keeps holding one.
abbrev pub Keeps : ℕ → SetQueue → SetQueue → Type 0
Keeps n squ squ' = (j : ℕ) → get_or squ.items j 0 < n → get_or squ'.items j 0 < n

pub enable_exchange :
    (bitmap : BitMap) (i expected : ℕ)
    → get_or bitmap (i / 8) 0 ≡ expected
    → set bitmap (i / 8) (bit_or expected (mask_of i)) ≡ enable_bit bitmap i
unfolding enable_bit
enable_exchange bitmap i expected e = rw (← e) refl

pub disable_exchange :
    (bitmap : BitMap) (i expected : ℕ)
    → get_or bitmap (i / 8) 0 ≡ expected
    → set bitmap (i / 8) (bit_and expected (invert 8 (mask_of i))) ≡ disable_bit bitmap i
unfolding disable_bit
disable_exchange bitmap i expected e = rw (← e) refl

pub next_index-lt : (n i : ℕ) → i < n → next_index n i < n
next_index-lt n i h = mod-lt _ {m = n} (omega arith)

module _ (n : ℕ) (squ : SetQueue) (v : IsInside n squ) where
  pub values-IsInside :
      (values : BitMap)
      → length values ≡ length squ.values
      → IsInside n (record squ { values = values })
  values-IsInside values same = record {
    bits = v.bits;
    head_in = v.head_in;
    tail_in = v.tail_in;
    room = v.room;
    values_room = omega (arith, same, v.values_room);
    ready_room = v.ready_room;
    ready_bytes = v.ready_bytes;
    ready_cells = v.ready_cells;
  }

  pub store-IsInside :
      (ind index : ℕ)
      → ind < n
      → index < n
      → IsInside n (record squ { items = set squ.items index ind })
        × Keeps n squ (record squ { items = set squ.items index ind })
        × (get_or (set squ.items index ind) index 0 < n)
  store-IsInside ind index below inside = (
    record {
      bits = v.bits;
      head_in = v.head_in;
      tail_in = v.tail_in;
      room = omega (arith, length-set squ.items index ind, v.room);
      values_room = v.values_room;
      ready_room = v.ready_room;
      ready_bytes = v.ready_bytes;
      ready_cells = λ j on. keeps j (v.ready_cells j on);
    },
    keeps,
    rw (get_or-set_self squ.items index ind 0 (omega (arith, v.room))) below,
  )
    where
      keeps : (j : ℕ) → get_or squ.items j 0 < n → get_or (set squ.items index ind) j 0 < n
      keeps j h = elim (ℕ_discrete index j) [
        | yes same ↦
            rw (← same, get_or-set_self squ.items index ind 0 (omega (arith, v.room))) below
        | no differ ↦ rw (get_or-set_ne squ.items index j ind 0 differ) h
      ]

  ready-IsInside :
      (ready : BitMap)
      → length ready ≡ length squ.ready
      → IsBytes ready
      → ((j : ℕ) → bit_at ready j ≡ 1 → get_or squ.items j 0 < n)
      → IsInside n (record squ { ready = ready })
  ready-IsInside ready same bytes cells = record {
    bits = v.bits;
    head_in = v.head_in;
    tail_in = v.tail_in;
    room = v.room;
    values_room = v.values_room;
    ready_room = omega (arith, same, v.ready_room);
    ready_bytes = bytes;
    ready_cells = cells;
  }

  pub flag-IsInside :
      (index : ℕ)
      → index < n
      → get_or squ.items index 0 < n
      → IsInside n (record squ { ready = enable_bit squ.ready index })
  flag-IsInside index inside cell =
      ready-IsInside _ (length-enable_bit squ.ready index)
        (enable_bit-IsBytes squ.ready index v.ready_bytes)
        λ j on. elim (ℕ_discrete index j) [
          | yes same ↦ rw (← same) cell
          | no differ ↦ v.ready_cells j (
              ground (arith, on, bit_at-enable_bit squ.ready index j (omega (arith, v.ready_room))))
        ]

  pub unflag-IsInside :
      (index : ℕ) → index < n → IsInside n (record squ { ready = disable_bit squ.ready index })
  unflag-IsInside index inside =
      ready-IsInside _ (length-disable_bit squ.ready index)
        (disable_bit-IsBytes squ.ready index v.ready_bytes)
        λ j on.
          v.ready_cells j
            (ground (arith, on, bit_at-disable_bit squ.ready index j (omega (arith, v.ready_room))))
