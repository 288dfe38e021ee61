-- ===== src/Queue.antt =====
-- utilities/src/common/queue.c and the macros of utilities/include/mcmp/util/queue.h: a ring of items
-- with one producer. An item is a block of bytes that is only copied, so any type stands for it.
mod Tests
use mcmp.Common.{
  ℕ, ◌+◌, ◌-◌, ◌*◌, ◌%◌, ◌^◌, ◌≤◌, ◌<◌, ◌≡◌, ◌≢◌, ◌↔◌, refl, inl, inr, arith, Bool, true, false,
  not, Option, none, some, List, [], ◌∷◌, ◌++◌, ◌==◌, if◌then◌else◌, Bool-cases, length, get_or,
  set, length-set,
}
use mcmp.Ring.{
  next_index, next_index-eq-after, after, held, contents, length-contents, contents-push, held-full,
  held-empty,
}

-- `mcmpqueue_header` and the payload behind it.
pub record Queue {ℓ} (A : Type ℓ) : Type ℓ where
  pub cells : ℕ
  pub item_size : ℕ
  pub head : ℕ
  pub tail : ℕ
  pub payload : List A

-- `mcmchQueueCreate`; `memory` is what `malloc` gives for the payload, or `none` for NULL.
unfoldable pub create {ℓ} : {A : Type ℓ} → Option (List A) → ℕ → ℕ → Option (Queue A)
create none item_size cells = none
create (some memory) item_size cells =
    some (record { cells = cells; item_size = item_size; head = 0; tail = 0; payload = memory })

-- What `mcmchQueuePush` returns: -1, or the index that it wrote to, cast to `int`.
pub data Pushed : Type 0 where
  refused : Pushed
  wrote : ℕ → Pushed

-- The 32 bits of an `int`.
abbrev to_int : ℕ → ℕ
to_int n = n % 2 ^ 32

-- `mcmchQueuePush`
unfoldable pub push {ℓ} : {A : Type ℓ} → Queue A → A → Pushed × Queue A
push queue item =
    let index = queue.head in
    let next = next_index queue.cells index in
    if next == queue.tail then (refused, queue) else (
      wrote (to_int index),
      record queue { payload = set queue.payload index item; head = next },
    )

-- `MCMP_QU_ISEMPTY` and `MCMP_QU_NONEMPTY`
unfoldable is_empty {ℓ} : {A : Type ℓ} → Queue A → Bool
is_empty queue = queue.head == queue.tail

unfoldable is_nonempty {ℓ} : {A : Type ℓ} → Queue A → Bool
is_nonempty queue = not (queue.head == queue.tail)

pub record IsValid {ℓ} {A : Type ℓ} (queue : Queue A) : Type 0 where
  pub head_in : queue.head < queue.cells
  pub tail_in : queue.tail < queue.cells
  pub room : queue.cells ≤ length queue.payload
  pub fits : queue.cells < 2 ^ 31

module _ {ℓ} {A : Type ℓ} (default : A) where
  -- The items that the queue holds, oldest first.
  abbrev pub items : Queue A → List A
  items queue = contents queue.payload queue.cells default queue.tail queue.head

  -- What a push does, on each branch.
  abbrev pub Push : Queue A → A → Pushed × Queue A → Type ℓ
  Push queue item (refused, after_push) =
      (after_push ≡ queue) × (length (items queue) + 1 ≡ queue.cells)
  Push queue item (wrote index, after_push) =
      (index ≡ queue.head)
      × IsValid after_push
      × (items after_push ≡ items queue ++ (item ∷ []))
      × (length (items queue) + 1 ≢ queue.cells)

  -- `mcmchQueuePush` on a valid queue of fewer than 2 ^ 31 cells: it returns -1 and changes nothing
  -- exactly when all cells but one are taken; otherwise it appends the item behind those held, keeps
  -- the queue valid, and returns the index that it wrote to.
  pub push_lem : (queue : Queue A) (item : A) → IsValid queue → Push queue item (push queue item)
  unfolding push
  push_lem queue item v =
      let plain = next_index-eq-after cells head v.head_in (omega (arith, v.fits)) in
      rw plain (elim (Bool-cases (after cells head == tail)) [
        | inl full ↦ rw full (refl, omega (arith, count, all_but_one.0 (ground arith)))
        | inr free ↦
            let apart : after cells head ≢ tail = λ (e : after cells head ≡ tail). ground arith in
            rw free (
              omega (arith, v.head_in, v.fits),
              record {
                head_in = ground arith;
                tail_in = v.tail_in;
                room = omega (arith, length-set payload head item, v.room);
                fits = v.fits;
              },
              contents-push payload cells default tail head v.tail_in v.head_in item v.room apart,
              λ e. apart (all_but_one.1 (omega (arith, count))),
            )
      ])
    where
      open queue use {cells, head, tail, payload}

      count : length (items queue) ≡ held cells tail head
      count = length-contents payload cells default tail head v.tail_in v.head_in

      all_but_one : (after cells head ≡ tail) ↔ (held cells tail head + 1 ≡ cells)
      all_but_one = held-full payload cells default tail head v.tail_in v.head_in

  -- MCMP_QU_ISEMPTY holds exactly for a valid queue that holds no item, and MCMP_QU_NONEMPTY is its
  -- negation.
  is_empty_lem :
      (queue : Queue A)
      → IsValid queue
      → ((is_empty queue ≡ true) ↔ (length (items queue) ≡ 0))
        × (is_nonempty queue ≡ not (is_empty queue))
  unfolding is_empty is_nonempty
  is_empty_lem queue v = (
    (
      λ e. omega (arith, count, no_item.0 (ground arith)),
      λ e. ground (arith, no_item.1 (omega (arith, count))),
    ),
    refl,
  )
    where
      open queue use {cells, head, tail, payload}

      count : length (items queue) ≡ held cells tail head
      count = length-contents payload cells default tail head v.tail_in v.head_in

      no_item : (tail ≡ head) ↔ (held cells tail head ≡ 0)
      no_item = held-empty payload cells default tail head v.tail_in v.head_in
