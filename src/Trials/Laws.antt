-- ===== src/Trials/Laws.antt =====
-- What the program prints.
use mathlib.Core.List.{append_assoc, append-nil}
use mcmp.Common.{
  ℕ, zero, suc, ◌+◌, ◌^◌, ◌≤◌, ◌<◌, ◌≡◌, refl, ◌∙◌, arith, Bool, true, false, ◌&&◌, none, some,
  List, [], ◌∷◌, ◌++◌, Each, leb, ltb, ◌==◌, length,
}
use mcmp.Status.{success}
use mcmp.Ring.{next_index, next_index-eq-after}
use mcmp.Bitmap.{is_enabled_bit}
use mcmp.Bitmap.Laws.{tests_bit}
use mcmp.SetQueue.{SetQueue, create}
use mcmp.SetQueue.Spec
use mcmp.SetQueue.Spec.{mem}
use mcmp.SetQueue.Once.{push_once, take_once}
use mcmp.SetQueue.Holds.{Holds, count}
use mcmp.SetQueue.PushOnce.{push_once-Pushes}
use mcmp.SetQueue.TakeOnce.{take_once-Takes}
use mcmp.SetQueue.Calls.{call-put, call-get}
use mcmp.SetQueue.Create.{empty, empty-Holds}
use mcmp.Trials.{Print, ready_row, values_row, taked, row, rows, push_all, drain, exits, main}

-- Indices of which none is among those before it, nor in `q`.
abbrev pub Fresh : List ℕ → List ℕ → Type 0
Fresh [] q = Unit
Fresh (x ∷ xs) q = (mem x q ≡ false) × Fresh xs (q ++ (x ∷ []))

-- What is printed when the cells from `k` up to `m` hold the indices `q`: of the takes, and of all.
abbrev pub rows_of : (n k m : ℕ) → List ℕ → List Print → List Print
rows_of n k m q more =
    ready_row (row (λ i. leb k i && ltb i m) 0 n) ∷ values_row (row (λ i. mem i q) 0 n) ∷ more

abbrev pub takes_of : (n k m : ℕ) → List ℕ → List Print
takes_of n k m [] = []
takes_of n k m (x ∷ q) = taked x ∷ rows_of n (k + 1) m q (takes_of n (k + 1) m q)

-- The queue holds `q` in the cells from `k` up to `m`.
record At (n k m : ℕ) (q : List ℕ) (squ : SetQueue) : Type 0 where
  holds : Holds squ q
  cells : squ.bitslength ≡ n
  at_tail : squ.tail ≡ k
  at_head : squ.head ≡ m
  ordered : k ≤ m

row-agree :
    (f g : ℕ → Bool) (idx n : ℕ) → ((i : ℕ) → i < idx + n → f i ≡ g i) → row f idx n ≡ row g idx n
unfolding row
row-agree f g idx zero same = refl
row-agree f g idx (suc n) same =
    rw (same idx (omega arith), row-agree f g (idx + 1) n (λ i h. same i (omega arith))) refl

push_once-success :
    (x : ℕ) (squ : SetQueue)
    → (push_once x squ).1 ≡ success
    → ((push_once x squ).0.head ≡ next_index squ.bitslength squ.head)
      × ((push_once x squ).0.tail ≡ squ.tail)
      × ((push_once x squ).0.bitslength ≡ squ.bitslength)
unfolding push_once
push_once-success x squ e = ground (arith, e)

take_once-success :
    (squ : SetQueue)
    → (take_once squ).1 ≡ success
    → ((take_once squ).0.tail ≡ next_index squ.bitslength squ.tail)
      × ((take_once squ).0.head ≡ squ.head)
      × ((take_once squ).0.bitslength ≡ squ.bitslength)
unfolding take_once
take_once-success squ e = ground (arith, e)

module _ {n k m : ℕ} {q : List ℕ} {squ : SetQueue} (v : At n k m q squ) where
  held_count : length q + k ≡ m
  held_count = grind (arith, count squ q v.holds, v.cells, v.at_tail, v.at_head, v.ordered)

  pushes :
      (x : ℕ)
      → x < n
      → mem x q ≡ false
      → suc m < n
      → Spec.push squ.bitslength q x ≡ (success, q ++ (x ∷ []))
  unfolding Spec.push
  pushes x below new more = ground (arith, v.cells, held_count, below, new, more)

  push-At :
      (x : ℕ)
      → x < n
      → mem x q ≡ false
      → suc m < n
      → At n k (suc m) (q ++ (x ∷ [])) (push_once x squ).0
  push-At x below new more =
      let p = rw (pushes x below new more) at (push_once-Pushes squ q v.holds x) in
      let moved = push_once-success x squ p.0 in
      let next =
        next_index-eq-after squ.bitslength squ.head v.holds.head_in (omega (arith, v.holds.fits)) in
      record {
        holds = p.1;
        cells = moved.2 ∙ v.cells;
        at_tail = moved.1 ∙ v.at_tail;
        at_head = ground (arith, moved.0, next, v.at_head, v.cells, more);
        ordered = omega (arith, v.ordered);
      }

  ready_row-bit : (i : ℕ) → i < n → is_enabled_bit squ.ready i ≡ (leb k i && ltb i m)
  ready_row-bit i h = ground (
    arith,
    (tests_bit squ.ready i v.holds.ready_bytes).1,
    v.holds.is_ready i (omega (arith, v.cells)),
    v.at_tail,
    v.at_head,
    v.ordered,
    v.cells,
    v.holds.head_in,
  )

  values_row-bit : (i : ℕ) → i < n → is_enabled_bit squ.values i ≡ mem i q
  values_row-bit i h = ground (
    arith,
    (tests_bit squ.values i v.holds.values_bytes).1,
    v.holds.in_set i (omega (arith, v.cells)),
  )

  rows-At : (more : List Print) → rows n squ more ≡ rows_of n k m q more
  rows-At more =
      rw
        (
          row-agree (is_enabled_bit squ.ready) (λ i. leb k i && ltb i m) 0 n
              (λ i h. ready_row-bit i (omega arith)),
          row-agree (is_enabled_bit squ.values) (λ i. mem i q) 0 n
              (λ i h. values_row-bit i (omega arith)),
        )
        refl

take-At :
    {n k m x : ℕ} {q : List ℕ} {squ : SetQueue}
    → At n k m (x ∷ q) squ
    → ((take_once squ).1 ≡ success)
      × ((take_once squ).2 ≡ some x)
      × At n (k + 1) m q (take_once squ).0
unfolding Spec.take
take-At {n} {k} {m} {x} {q} {squ} v =
    let p = take_once-Takes squ (x ∷ q) v.holds in
    let moved = take_once-success squ p.0 in
    let next =
      next_index-eq-after squ.bitslength squ.tail v.holds.tail_in (omega (arith, v.holds.fits)) in
    let less : k + 1 ≤ m = omega (arith, held_count v) in
    let end : m < n = omega (arith, v.holds.head_in, v.at_head, v.cells) in
    (
      p.0,
      p.1,
      record {
        holds = p.2;
        cells = moved.2 ∙ v.cells;
        at_tail = ground (arith, moved.0, next, v.at_tail, v.cells, less, end);
        at_head = moved.1 ∙ v.at_head;
        ordered = less;
      },
    )

push_all-At :
    (xs : List ℕ) {n k m : ℕ} {q : List ℕ} {squ : SetQueue}
    → At n k m q squ
    → Fresh xs q
    → Each (λ x. x < n) xs
    → m + length xs < n
    → (filled_queue : SetQueue) × (push_all squ xs ≡ some filled_queue)
      × At n k (m + length xs) (q ++ xs) filled_queue
unfolding push_all
push_all-At [] {n} {k} {m} {q} {squ} v fresh below room =
    let same : m + 0 ≡ m = omega arith in (squ, refl, rw (same, append-nil q) v)
push_all-At (x ∷ xs) {n} {k} {m} {q} {squ} v fresh below room =
    let v' = push-At v x below.0 fresh.0 (omega arith) in
    let (filled_queue, all, at) = push_all-At xs v' fresh.1 below.1 (omega arith) in
    let same : suc m + length xs ≡ m + suc (length xs) = omega arith in
    (filled_queue, rw (call-put squ x) all, rw (same, append_assoc q (x ∷ []) xs) at at)

drain-takes :
    (q : List ℕ) {n k m : ℕ} {squ : SetQueue} (fuel ind : ℕ)
    → At n k m q squ
    → length q < fuel
    → drain fuel n ind squ ≡ some (takes_of n k m q)
unfolding drain
drain-takes q zero ind v less = absurd (omega arith)
drain-takes [] {n} {k} {m} {squ} (suc fuel) ind v less =
    let empty : (squ.head == squ.tail) ≡ true =
      ground (arith, held_count v, v.at_head, v.at_tail) in
    rw empty refl
drain-takes (x ∷ q) {n} {k} {m} {squ} (suc fuel) ind v less =
    let more : (squ.head == squ.tail) ≡ false =
      ground (arith, held_count v, v.at_head, v.at_tail) in
    let (done, item, v') = take-At v in
    rw
      (
        more,
        call-get squ,
        item,
        drain-takes q fuel x v' (omega arith),
        rows-At v' (takes_of n (k + 1) m q),
      )
      refl

-- The program, with memory for its length, prints for distinct indices below it, fewer than it: the
-- bitmaps with the first cells ready and exactly the indices set; and then each index in the order of
-- the pushes, each time with the bitmaps without its cell and without it. It ends with the status 0,
-- and without memory with 1.
pub main_lem :
    (memory : List ℕ) (n ind : ℕ) (inds : List ℕ)
    → 2 ≤ n
    → n < 2 ^ 60
    → n ≤ length memory
    → Fresh inds []
    → Each (λ x. x < n) inds
    → length inds < n
    → (main (some memory) n ind inds
        ≡ exits 0 (rows_of n 0 (length inds) inds (takes_of n 0 (length inds) inds)))
      × (main none n ind inds ≡ exits 1 [])
unfolding main create
main_lem memory n ind inds two fits room fresh below less =
    let start : At n 0 0 [] (empty memory n) = record {
      holds = empty-Holds memory n two fits room;
      cells = refl;
      at_tail = refl;
      at_head = refl;
      ordered = omega arith;
    } in
    let (squ, all, v) = push_all-At inds start fresh below (omega arith) in
    let none_before : 0 + length inds ≡ length inds = omega arith in
    let held_all = rw none_before at v in
    (
      rw
          (
            all,
            drain-takes inds n ind held_all less,
            rows-At held_all (takes_of n 0 (length inds) inds),
          )
          refl,
      refl,
    )
