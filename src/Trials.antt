-- ===== src/Trials.antt =====
-- utilities/test/test_setqueue.c: a program that pushes some indices on a set queue, prints its bitmaps,
-- and takes from it until it is empty. The length and the indices are arguments; the program has 16, and
-- 0, 2, 5, 7, 15 and 13.
pub mod Laws
mod Tests
use mcmp.Common.{
  ℕ, zero, suc, ◌+◌, ◌%◌, Bool, true, false, Option, none, some, List, [], ◌∷◌, ◌==◌, if◌then◌else◌,
}
use mcmp.Bitmap.{is_enabled_bit}
use mcmp.SetQueue.{SetQueue, Created, null, made, create}
use mcmp.SetQueue.Calls.{Reply, put, get, call}

-- What is printed: the two bitmaps, each behind its title, and the index of a take.
pub data Print : Type 0 where
  ready_row values_row : (text : List ℕ) → Print
  taked : (ind : ℕ) → Print

-- The characters of a bitmap, from an index on: a space before each byte, 1 or 0, and a line feed.
unfoldable pub row : (is_enabled : ℕ → Bool) → (idx count : ℕ) → List ℕ
row is_enabled idx zero = 10 ∷ []
row is_enabled idx (suc count) =
    let bits = (if is_enabled idx then 49 else 48) ∷ row is_enabled (idx + 1) count in
    if idx % 8 == 0 then 32 ∷ bits else bits

abbrev pub rows : (length : ℕ) → SetQueue → List Print → List Print
rows length squ more =
    ready_row (row (is_enabled_bit squ.ready) 0 length)
    ∷ values_row (row (is_enabled_bit squ.values) 0 length)
    ∷ more

-- The pushes, whose statuses are not looked at; `none` is a call that has not returned.
abbrev pub pushed : Option (Reply × SetQueue) → (SetQueue → Option SetQueue) → Option SetQueue
pushed none continue = none
pushed (some (reply, squ)) continue = continue squ

unfoldable pub push_all : SetQueue → List ℕ → Option SetQueue
push_all squ [] = some squ
push_all squ (ind ∷ inds) = pushed (call squ (put ind)) (λ squ'. push_all squ' inds)

-- The local `ind` after a take.
abbrev pub stored : ℕ → Option ℕ → ℕ
stored ind none = ind
stored ind (some item) = item

abbrev pub prints : (length ind : ℕ) → SetQueue → Option (List Print) → Option (List Print)
prints length ind squ none = none
prints length ind squ (some more) = some (taked ind ∷ rows length squ more)

abbrev pub taken :
    (length ind : ℕ)
    → Option (Reply × SetQueue)
    → (ℕ → SetQueue → Option (List Print))
    → Option (List Print)
taken length ind none continue = none
taken length ind (some ((status, item), squ)) continue =
    prints length (stored ind item) squ (continue (stored ind item) squ)

-- The loop of the takes, on fuel.
unfoldable pub drain : (fuel length ind : ℕ) → SetQueue → Option (List Print)
drain zero length ind squ = none
drain (suc fuel) length ind squ =
    if squ.head == squ.tail
    then some []
    else taken length ind (call squ get) (λ ind' squ'. drain fuel length ind' squ')

-- How the program ends; `hangs` is a loop or a call that has not ended.
pub data Exit : Type 0 where
  exits : (status : ℕ) → List Print → Exit
  hangs : Exit

abbrev pub printed : (length : ℕ) → SetQueue → Option (List Print) → Exit
printed length squ none = hangs
printed length squ (some more) = exits 0 (rows length squ more)

abbrev pub filled : (length ind : ℕ) → Option SetQueue → Exit
filled length ind none = hangs
filled length ind (some squ) = printed length squ (drain length length ind squ)

abbrev pub begun : (length ind : ℕ) → List ℕ → Created → Exit
begun length ind inds (null status) = exits 1 []
begun length ind inds (made squ) = filled length ind (push_all squ inds)

-- `main`; `memory` is what malloc leaves, and `ind` what the local of that name holds at first.
unfoldable pub main : (memory : Option (List ℕ)) → (length ind : ℕ) → List ℕ → Exit
main memory length ind inds = begun length ind inds (create memory length)
