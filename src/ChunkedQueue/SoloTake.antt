-- ===== src/ChunkedQueue/SoloTake.antt =====
-- `mcmpChunkedQueueTake` by one thread: it removes the oldest item, and refuses when there is none.
use mcmp.Common.{
  ℕ, zero, suc, ◌-◌, ◌≤◌, ◌≡◌, ◌≢◌, refl, inl, inr, arith, Bool, true, ◌&&◌, Option, none, some,
  List, [], ◌∷◌, ◌++◌, ◌==◌, Bool-cases, replicate, get_elem?-eq-get_or,
}
use mcmp.Ring.{next_index-eq-after, after, held, contents-take, held-empty}
use mcmp.Status.{Status, success, overflow}
use mcmp.ChunkedQueue.{Chunk, TakePc, take_step}
use mcmp.ChunkedQueue.SoloPush.{IsValid, items_of}

-- The steps of one thread, one for each entry of the list, which says how its exchange fares.
unfoldable pub run_take : ℕ → List Bool → Chunk → TakePc → Chunk × TakePc
run_take n [] chunk pc = (chunk, pc)
run_take n (lucky ∷ rest) chunk pc =
    let (chunk', pc') = take_step n lucky chunk pc in run_take n rest chunk' pc'

run_take-append :
    (n : ℕ) (steps more : List Bool) (chunk : Chunk) (pc : TakePc)
    → run_take n (steps ++ more) chunk pc
      ≡ (let (chunk', pc') = run_take n steps chunk pc in run_take n more chunk' pc')
unfolding run_take
run_take-append n [] more chunk pc = refl
run_take-append n (lucky ∷ rest) more chunk pc =
    run_take-append n rest more (take_step n lucky chunk pc).0 (take_step n lucky chunk pc).1

-- What a take from `before` has done when it returns.
abbrev pub Taken : ℕ → Chunk → Chunk → Status → Option ℕ → Type 0
Taken n before chunk success (some item) =
    IsValid n chunk × (items_of n before ≡ item ∷ items_of n chunk)
Taken n before chunk overflow none = (chunk ≡ before) × (items_of n before ≡ [])
Taken n before chunk _ _ = ⊥

abbrev pub TakeReturns : ℕ → Chunk → Chunk × TakePc → Type 0
TakeReturns n before (chunk, TakePc.done status item) = Taken n before chunk status item
TakeReturns n before _ = ⊥

-- How far a take from `before` has come.
abbrev Taking : ℕ → Chunk → Chunk × TakePc → Type 0
Taking n before (chunk, TakePc.start) = chunk ≡ before
Taking n before (chunk, TakePc.loaded index next) =
    (chunk ≡ before) × (index ≡ before.tail) × (next ≡ after n before.tail)
Taking n before (chunk, TakePc.claiming index next) =
    (chunk ≡ before)
    × (index ≡ before.tail)
    × (next ≡ after n before.tail)
    × (before.tail ≢ before.head)
Taking n before (chunk, TakePc.reading index) =
    (chunk ≡ record before { tail = after n before.tail })
    × (index ≡ before.tail)
    × (before.tail ≢ before.head)
Taking n before (chunk, TakePc.done status item) = Taken n before chunk status item

module _ (n : ℕ) (before : Chunk) (v : IsValid n before) where
  open before use {head, tail, items}

  no_item : tail ≡ head → items_of n before ≡ []
  no_item e =
      let nothing : held n tail head ≡ 0 =
        (held-empty items n 0 tail head v.tail_in v.head_in).0 e in
      rw nothing

  take_step-Taking :
      (lucky : Bool) (chunk : Chunk) (pc : TakePc)
      → Taking n before (chunk, pc)
      → Taking n before (take_step n lucky chunk pc)
  unfolding take_step
  take_step-Taking lucky chunk TakePc.start p =
      rw p (refl, refl, next_index-eq-after n tail v.tail_in v.fits)
  take_step-Taking lucky chunk (TakePc.loaded index next) p =
      rw (p.0, p.1, p.2)
        (elim (Bool-cases (head == tail)) [
          | inl nothing ↦ rw nothing (refl, no_item (ground arith))
          | inr some_item ↦ rw some_item (refl, refl, refl, λ e. ground arith)
        ])
  take_step-Taking lucky chunk (TakePc.claiming index next) p =
      elim (Bool-cases (lucky && chunk.tail == index)) [
        | inl won ↦ rw (won, p.0, p.2) (refl, p.1, p.3)
        | inr lost ↦ rw lost p.0
      ]
  take_step-Taking lucky chunk (TakePc.reading index) p =
      rw (p.0, p.1, get_elem?-eq-get_or items tail 0 (omega (arith, v.tail_in, v.room)))
        (
          record { head_in = v.head_in; tail_in = ground arith; room = v.room; fits = v.fits },
          contents-take items n 0 tail head v.tail_in v.head_in p.2,
        )
  take_step-Taking lucky chunk (TakePc.done status item) p = p

  run_take-Taking :
      (steps : List Bool) (chunk : Chunk) (pc : TakePc)
      → Taking n before (chunk, pc)
      → Taking n before (run_take n steps chunk pc)
  unfolding run_take
  run_take-Taking [] chunk pc p = p
  run_take-Taking (lucky ∷ rest) chunk pc p =
      run_take-Taking rest (take_step n lucky chunk pc).0 (take_step n lucky chunk pc).1
        (take_step-Taking lucky chunk pc p)

  -- The steps that a take has still to make, if its exchange does not fail.
  abbrev take_left : TakePc → ℕ
  take_left TakePc.start = 4
  take_left (TakePc.loaded index next) = 3
  take_left (TakePc.claiming index next) = 2
  take_left (TakePc.reading index) = 1
  take_left (TakePc.done status item) = 0

  take_step-left :
      (chunk : Chunk) (pc : TakePc)
      → Taking n before (chunk, pc)
      → take_left (take_step n true chunk pc).1 ≤ take_left pc - 1
  unfolding take_step
  take_step-left chunk (TakePc.claiming index next) p =
      let same : (chunk.tail == index) ≡ true = rw (p.0, p.1) (ground arith) in
      rw same (omega arith)
  take_step-left chunk (TakePc.loaded index next) p = ground arith
  take_step-left chunk _ p = omega arith

  run_take-left :
      (k : ℕ) (chunk : Chunk) (pc : TakePc)
      → Taking n before (chunk, pc)
      → take_left (run_take n (replicate k true) chunk pc).1 ≤ take_left pc - k
  unfolding run_take
  run_take-left zero chunk pc p = omega arith
  run_take-left (suc k) chunk pc p = omega (
    arith,
    take_step-left chunk pc p,
    run_take-left k (take_step n true chunk pc).0 (take_step n true chunk pc).1
        (take_step-Taking true chunk pc p),
  )

  returns_of_left :
      (chunk : Chunk) (pc : TakePc)
      → Taking n before (chunk, pc)
      → take_left pc ≡ 0
      → TakeReturns n before (chunk, pc)
  returns_of_left chunk (TakePc.done status item) p e = p
  returns_of_left chunk _ p e = absurd (omega arith)

  take_left-le : (pc : TakePc) → take_left pc ≤ 4
  take_left-le TakePc.start = omega arith
  take_left-le _ = omega arith

  -- A take from a valid chunk by one thread. Whatever exchanges of its first steps fail without cause,
  -- it has returned after four more steps of which none fails so: with SUCCESS and the oldest of the
  -- items held, which is no longer among them, and the chunk valid; or with OVERFLOW, and then the
  -- chunk holds no item and is unchanged.
  pub run_take_lem :
      (steps : List Bool)
      → TakeReturns n before (run_take n (steps ++ replicate 4 true) before TakePc.start)
  run_take_lem steps =
      let (chunk, pc) = run_take n steps before TakePc.start in
      let p = run_take-Taking steps before TakePc.start refl in
      rw (run_take-append n steps (replicate 4 true) before TakePc.start) (
        returns_of_left _ _ (run_take-Taking (replicate 4 true) chunk pc p)
          (omega (arith, run_take-left 4 chunk pc p, take_left-le pc)))
