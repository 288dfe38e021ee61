-- ===== src/ChunkedQueue/SoloPush.antt =====
-- `mcmpChunkedQueuePush` by one thread: it appends, and refuses when there is no room.
use mcmp.Common.{
  ℕ, zero, suc, ◌+◌, ◌-◌, ◌^◌, ◌≤◌, ◌<◌, ◌≡◌, ◌≢◌, ◌↔◌, refl, ◌∙◌, inl, inr, arith, Bool, true,
  ◌&&◌, List, [], ◌∷◌, ◌++◌, ◌==◌, Bool-cases, length, replicate, length-set,
}
use mcmp.Ring.{
  next_index-eq-after, after, held, contents, length-contents, contents-push, held-full,
}
use mcmp.Status.{Status, success, overflow}
use mcmp.ChunkedQueue.{Chunk, PushPc, push_step}

-- `n` is the queue's alignment: the number of items of a chunk.
pub record IsValid (n : ℕ) (chunk : Chunk) : Type 0 where
  pub head_in : chunk.head < n
  pub tail_in : chunk.tail < n
  pub room : n ≤ length chunk.items
  pub fits : n < 2 ^ 64

-- The items that a chunk holds, oldest first.
abbrev pub items_of : ℕ → Chunk → List ℕ
items_of n chunk = contents chunk.items n 0 chunk.tail chunk.head

-- The steps of one thread, one for each entry of the list, which says how its exchange fares.
unfoldable pub run_push : ℕ → ℕ → List Bool → Chunk → PushPc → Chunk × PushPc
run_push n item [] chunk pc = (chunk, pc)
run_push n item (lucky ∷ rest) chunk pc =
    let (chunk', pc') = push_step n item lucky chunk pc in run_push n item rest chunk' pc'

run_push-append :
    (n item : ℕ) (steps more : List Bool) (chunk : Chunk) (pc : PushPc)
    → run_push n item (steps ++ more) chunk pc
      ≡ (let (chunk', pc') = run_push n item steps chunk pc in run_push n item more chunk' pc')
unfolding run_push
run_push-append n item [] more chunk pc = refl
run_push-append n item (lucky ∷ rest) more chunk pc =
    run_push-append n item rest more (push_step n item lucky chunk pc).0
      (push_step n item lucky chunk pc).1

-- What a push of `item` onto `before` has done when it returns.
abbrev pub Pushed : ℕ → ℕ → Chunk → Chunk → Status → Type 0
Pushed n item before chunk success =
    IsValid n chunk
    × (items_of n chunk ≡ items_of n before ++ (item ∷ []))
    × (length (items_of n before) + 1 ≢ n)
Pushed n item before chunk overflow = (chunk ≡ before) × (length (items_of n before) + 1 ≡ n)
Pushed n item before chunk _ = ⊥

abbrev pub PushReturns : ℕ → ℕ → Chunk → Chunk × PushPc → Type 0
PushReturns n item before (chunk, PushPc.done status) = Pushed n item before chunk status
PushReturns n item before _ = ⊥

-- How far a push of `item` onto `before` has come.
abbrev Pushing : ℕ → ℕ → Chunk → Chunk × PushPc → Type 0
Pushing n item before (chunk, PushPc.start) = chunk ≡ before
Pushing n item before (chunk, PushPc.loaded index next) =
    (chunk ≡ before) × (index ≡ before.head) × (next ≡ after n before.head)
Pushing n item before (chunk, PushPc.claiming index next) =
    (chunk ≡ before) × (index ≡ before.head) × (next ≡ after n before.head) × (next ≢ before.tail)
Pushing n item before (chunk, PushPc.writing index) =
    (chunk ≡ record before { head = after n before.head })
    × (index ≡ before.head)
    × (after n before.head ≢ before.tail)
Pushing n item before (chunk, PushPc.done status) = Pushed n item before chunk status

module _ (n item : ℕ) (before : Chunk) (v : IsValid n before) where
  open before use {head, tail, items}

  count : length (items_of n before) ≡ held n tail head
  count = length-contents items n 0 tail head v.tail_in v.head_in

  all_but_one : (after n head ≡ tail) ↔ (held n tail head + 1 ≡ n)
  all_but_one = held-full items n 0 tail head v.tail_in v.head_in

  push_step-Pushing :
      (lucky : Bool) (chunk : Chunk) (pc : PushPc)
      → Pushing n item before (chunk, pc)
      → Pushing n item before (push_step n item lucky chunk pc)
  unfolding push_step
  push_step-Pushing lucky chunk PushPc.start p =
      rw p (refl, refl, next_index-eq-after n head v.head_in v.fits)
  push_step-Pushing lucky chunk (PushPc.loaded index next) p =
      rw (p.0, p.1, p.2)
        (elim (Bool-cases (tail == after n head)) [
          | inl full ↦ rw full (refl, omega (arith, count, all_but_one.0 (ground arith)))
          | inr free ↦ rw free (refl, refl, refl, λ e. ground arith)
        ])
  push_step-Pushing lucky chunk (PushPc.claiming index next) p =
      elim (Bool-cases (lucky && chunk.head == index)) [
        | inl won ↦ rw (won, p.0, p.2) (refl, p.1, λ e. p.3 (p.2 ∙ e))
        | inr lost ↦ rw lost p.0
      ]
  push_step-Pushing lucky chunk (PushPc.writing index) p =
      rw (p.0, p.1)
        (
          record {
            head_in = ground arith;
            tail_in = v.tail_in;
            room = omega (arith, length-set items head item, v.room);
            fits = v.fits;
          },
          contents-push items n 0 tail head v.tail_in v.head_in item v.room p.2,
          λ e. p.2 (all_but_one.1 (omega (arith, count))),
        )
  push_step-Pushing lucky chunk (PushPc.done status) p = p

  run_push-Pushing :
      (steps : List Bool) (chunk : Chunk) (pc : PushPc)
      → Pushing n item before (chunk, pc)
      → Pushing n item before (run_push n item steps chunk pc)
  unfolding run_push
  run_push-Pushing [] chunk pc p = p
  run_push-Pushing (lucky ∷ rest) chunk pc p =
      run_push-Pushing rest (push_step n item lucky chunk pc).0 (push_step n item lucky chunk pc).1
        (push_step-Pushing lucky chunk pc p)

  -- The steps that a push has still to make, if its exchange does not fail.
  abbrev push_left : PushPc → ℕ
  push_left PushPc.start = 4
  push_left (PushPc.loaded index next) = 3
  push_left (PushPc.claiming index next) = 2
  push_left (PushPc.writing index) = 1
  push_left (PushPc.done status) = 0

  push_step-left :
      (chunk : Chunk) (pc : PushPc)
      → Pushing n item before (chunk, pc)
      → push_left (push_step n item true chunk pc).1 ≤ push_left pc - 1
  unfolding push_step
  push_step-left chunk PushPc.start p = omega arith
  push_step-left chunk (PushPc.loaded index next) p = ground arith
  push_step-left chunk (PushPc.claiming index next) p =
      let same : (chunk.head == index) ≡ true = rw (p.0, p.1) (ground arith) in
      rw same (omega arith)
  push_step-left chunk (PushPc.writing index) p = omega arith
  push_step-left chunk (PushPc.done status) p = omega arith

  run_push-left :
      (k : ℕ) (chunk : Chunk) (pc : PushPc)
      → Pushing n item before (chunk, pc)
      → push_left (run_push n item (replicate k true) chunk pc).1 ≤ push_left pc - k
  unfolding run_push
  run_push-left zero chunk pc p = omega arith
  run_push-left (suc k) chunk pc p = omega (
    arith,
    push_step-left chunk pc p,
    run_push-left k (push_step n item true chunk pc).0 (push_step n item true chunk pc).1
        (push_step-Pushing true chunk pc p),
  )

  returns_of_left :
      (chunk : Chunk) (pc : PushPc)
      → Pushing n item before (chunk, pc)
      → push_left pc ≡ 0
      → PushReturns n item before (chunk, pc)
  returns_of_left chunk PushPc.start p e = absurd (omega arith)
  returns_of_left chunk (PushPc.loaded index next) p e = absurd (omega arith)
  returns_of_left chunk (PushPc.claiming index next) p e = absurd (omega arith)
  returns_of_left chunk (PushPc.writing index) p e = absurd (omega arith)
  returns_of_left chunk (PushPc.done status) p e = p

  push_left-le : (pc : PushPc) → push_left pc ≤ 4
  push_left-le PushPc.start = omega arith
  push_left-le _ = omega arith

  -- A push onto a valid chunk by one thread. Whatever exchanges of its first steps fail without cause,
  -- it has returned after four more steps of which none fails so: with SUCCESS it has appended the
  -- item to those held and kept the chunk valid, and this unless all cells but one are taken; else with
  -- OVERFLOW, and the chunk is unchanged.
  pub run_push_lem :
      (steps : List Bool)
      → PushReturns n item before (run_push n item (steps ++ replicate 4 true) before PushPc.start)
  run_push_lem steps =
      let (chunk, pc) = run_push n item steps before PushPc.start in
      let p = run_push-Pushing steps before PushPc.start refl in
      rw (run_push-append n item steps (replicate 4 true) before PushPc.start) (
        returns_of_left _ _ (run_push-Pushing (replicate 4 true) chunk pc p)
          (omega (arith, run_push-left 4 chunk pc p, push_left-le pc)))
