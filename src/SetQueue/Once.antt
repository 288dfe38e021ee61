-- ===== src/SetQueue/Once.antt =====
-- The steps of one thread that nobody disturbs, as one function.
use mcmp.Common.{
  ℕ, zero, suc, ◌≡◌, inl, inr, arith, true, not, ◌&&◌, Option, none, some, ◌==◌, leb, if◌then◌else◌,
  Bool-cases, bit_and, get_or, set,
}
use mcmp.Ring.{next_index}
use mcmp.Status.{Status, success, overflow, isempty, alrop, retryop}
use mcmp.Bitmap.{enable_bit, disable_bit}
use mcmp.Bitmap.Atomic.{atomic_is_enabled_bit}
use mcmp.SetQueue.{SetQueue, byte_of, mask_of, PushPc, push_step, TakePc, take_step}

unfoldable pub run_push : ℕ → ℕ → SetQueue → PushPc → SetQueue × PushPc
run_push zero ind squ pc = (squ, pc)
run_push (suc k) ind squ pc = let (squ', pc') = push_step ind squ pc in run_push k ind squ' pc'

unfoldable pub run_take : ℕ → SetQueue → TakePc → SetQueue × TakePc
run_take zero squ pc = (squ, pc)
run_take (suc k) squ pc = let (squ', pc') = take_step squ pc in run_take k squ' pc'

unfoldable pub push_once : ℕ → SetQueue → SetQueue × Status
push_once ind squ =
    let next = next_index squ.bitslength squ.head in
    if leb squ.bitslength ind
    then (squ, overflow)
    else if not (bit_and (byte_of squ.values ind) (mask_of ind) == 0)
    then (squ, alrop)
    else if (next == squ.tail) && atomic_is_enabled_bit squ.ready next
    then (record squ { values = disable_bit (enable_bit squ.values ind) ind }, overflow)
    else (
      record squ {
        values = enable_bit squ.values ind;
        head = next;
        items = set squ.items squ.head ind;
        ready = enable_bit squ.ready squ.head;
      },
      success,
    )

unfoldable pub take_once : SetQueue → SetQueue × Status × Option ℕ
take_once squ =
    let item = get_or squ.items squ.tail 0 in
    if squ.tail == squ.head
    then (squ, isempty, none)
    else if bit_and (byte_of squ.ready squ.tail) (mask_of squ.tail) == 0
    then (squ, retryop, none)
    else (
      record squ {
        tail = next_index squ.bitslength squ.tail;
        values = disable_bit squ.values item;
        ready = disable_bit squ.ready squ.tail;
      },
      success,
      some item,
    )

self : (a : ℕ) → (a == a) ≡ true
self a = ground arith

-- A push returns within nine steps, as `push_once` says.
pub run_push-eq-push_once :
    (ind : ℕ) (squ : SetQueue)
    → run_push 9 ind squ PushPc.start
      ≡ (let (squ', status) = push_once ind squ in (squ', PushPc.done status))
unfolding run_push push_step push_once enable_bit
run_push-eq-push_once ind squ = elim (Bool-cases (leb squ.bitslength ind)) [
  | inl out ↦ rw out
  | inr inside ↦ elim (Bool-cases (bit_and (byte_of squ.values ind) (mask_of ind) == 0)) [
    | inr held ↦ rw (inside, held)
    | inl absent ↦ elim (Bool-cases (next_index squ.bitslength squ.head == squ.tail)) [
      | inr free ↦ rw (
        inside,
        absent,
        self (byte_of squ.values ind),
        free,
        self squ.head,
        self (byte_of squ.ready squ.head),
      )
      | inl meet ↦
          elim (Bool-cases (atomic_is_enabled_bit squ.ready (next_index squ.bitslength squ.head))) [
            | inl full ↦ rw (inside, absent, self (byte_of squ.values ind), meet, full)
            | inr empty ↦ rw (
              inside,
              absent,
              self (byte_of squ.values ind),
              meet,
              empty,
              self squ.head,
              self (byte_of squ.ready squ.head),
            )
          ]
    ]
  ]
]

-- A take returns within nine steps, as `take_once` says.
pub run_take-eq-take_once :
    (squ : SetQueue)
    → run_take 9 squ TakePc.start
      ≡ (let (squ', status, item) = take_once squ in (squ', TakePc.done status item))
unfolding run_take take_step take_once disable_bit
run_take-eq-take_once squ = elim (Bool-cases (squ.tail == squ.head)) [
  | inl nothing ↦ rw nothing
  | inr some_item ↦
      elim (Bool-cases (bit_and (byte_of squ.ready squ.tail) (mask_of squ.tail) == 0)) [
        | inl unready ↦ rw (some_item, unready)
        | inr there ↦ rw (
          some_item,
          there,
          self squ.tail,
          self (byte_of squ.values (get_or squ.items squ.tail 0)),
          self (byte_of squ.ready squ.tail),
        )
      ]
]
