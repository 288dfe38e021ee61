-- ===== src/SetQueue/Single.antt =====
-- A set queue of one cell: `(index + 1) % 1` is the tail again, but the ready bit of the cell is not
-- set yet, so a push goes through and leaves head and tail equal.
use mcmp.Common.{
  ℕ, zero, suc, ◌≡◌, refl, ◌∙◌, arith, true, none, some, List, [], ◌∷◌, ◌==◌, if◌then◌else◌,
}
use mcmp.Status.{success, overflow, isempty, alrop}
use mcmp.SetQueue.{SetQueue, made, create}
use mcmp.Bitmap.{enable_bit, clean_order}
use mcmp.Bitmap.Atomic.{atomic_is_enabled_bit}
use mcmp.SetQueue.Once.{push_once, take_once}
use mcmp.SetQueue.Calls.{Op, put, get, Reply, call, call-put, call-get, calls, calls-cons}

-- The cell is taken and the queue looks empty.
record IsStuck (squ : SetQueue) : Type 0 where
  one : squ.bitslength ≡ 1
  empty : squ.tail ≡ squ.head
  marked : squ.values ≡ 1 ∷ []

abbrev stuck_reply : Op → Reply
stuck_reply (put x) = (if x == 0 then alrop else overflow, none)
stuck_reply get = (isempty, none)

abbrev stuck_replies : List Op → List Reply
stuck_replies [] = []
stuck_replies (op ∷ ops) = stuck_reply op ∷ stuck_replies ops

push_stuck :
    (squ : SetQueue) (x : ℕ) → IsStuck squ → push_once x squ ≡ (squ, (stuck_reply (put x)).0)
unfolding push_once
push_stuck squ zero v = rw (v.one, v.marked) refl
push_stuck squ (suc x) v = rw v.one (ground arith)

take_stuck : (squ : SetQueue) → IsStuck squ → take_once squ ≡ (squ, isempty, none)
unfolding take_once
take_stuck squ v = let e : (squ.tail == squ.head) ≡ true = ground (arith, v.empty) in rw e refl

call_stuck : (squ : SetQueue) (op : Op) → IsStuck squ → call squ op ≡ some (stuck_reply op, squ)
call_stuck squ (put x) v = call-put squ x ∙ rw (push_stuck squ x v) refl
call_stuck squ get v = call-get squ ∙ rw (take_stuck squ v) refl

calls_stuck :
    (squ : SetQueue) (ops : List Op) → IsStuck squ → calls squ ops ≡ some (stuck_replies ops)
unfolding calls
calls_stuck squ [] v = refl
calls_stuck squ (op ∷ ops) v =
    calls-cons squ squ op ops _ _ (call_stuck squ op v) (calls_stuck squ ops v)

abbrev one_cell : ℕ → SetQueue
one_cell first = record {
  byteslength = 1;
  bitslength = 1;
  head = 0;
  tail = 0;
  values = 0 ∷ [];
  ready = 0 ∷ [];
  items = first ∷ [];
}

first_push :
    (first : ℕ)
    → (IsStuck (push_once 0 (one_cell first)).0) × ((push_once 0 (one_cell first)).1 ≡ success)
unfolding push_once enable_bit atomic_is_enabled_bit
first_push first = (record { one = refl; empty = refl; marked = refl }, refl)

-- `mcmpSetQueueCreate(1)` makes a set queue that takes the index 0 with SUCCESS and loses it: whatever
-- calls follow, each take returns ISEMPTY and each further push of 0 returns ALROP.
single_loses_item :
    (first : ℕ) (ops : List Op)
    → (create (some (first ∷ [])) 1 ≡ made (one_cell first))
      × (calls (one_cell first) (put 0 ∷ ops) ≡ some ((success, none) ∷ stuck_replies ops))
unfolding create clean_order
single_loses_item first ops =
    let p = first_push first in
    let done = calls_stuck (push_once 0 (one_cell first)).0 ops p.0 in
    (
      refl,
      calls-cons (one_cell first) _ (put 0) ops _ _ (call-put (one_cell first) 0) done
          ∙ rw p.1 refl,
    )
