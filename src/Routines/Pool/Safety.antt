-- ===== src/Routines/Pool/Safety.antt =====
-- What the owner of a pool can rely on.
use native.Mathlib.Decide.{ℕ_discrete}
use mathlib.Core.Logic.{ite}
use mathlib.Core.Path.{subst}
use mcmp.Common.{
  ℕ, ◌+◌, ◌*◌, ◌%◌, ◌^◌, ◌/◌, ◌≤◌, ◌<◌, ◌≡◌, ◌≢◌, refl, arith, inl, inr, true, false, Option, none,
  some, leb, ◌==◌, if◌then◌else◌, Bool-cases, length,
}
use mcmp.Bitmap.{BitMap, IsBytes, bit_at, is_enabled_bit, is_disabled_bit, enable_bit, disable_bit}
use mcmp.Bitmap.Laws.{
  tests_bit, bit_at-clean_order, length-clean_order, clean_order-IsBytes, bit_at-enable_bit,
  bit_at-disable_bit, enable_bit-IsBytes, disable_bit-IsBytes, length-enable_bit,
  length-disable_bit,
}
use mcmp.Routines.Pool.{
  slot_of, EntryPc, starting, working, stopping, returned, entry, entry_step, OwnerPc, idle,
  enabling, running, disabling, joining, freed, System, has_returned, owner_step, assign, Moves,
  here, owns, turns, linked,
}

-- What the owner has done with a thread: its bit is not set yet; it is set; it is cleared; the thread
-- is joined.
pub data Stance : Type 0 where
  unlit lit dim gone : Stance

abbrev stance : OwnerPc → ℕ → Stance
stance idle i = unlit
stance (enabling k) i = if leb k i then unlit else lit
stance running i = lit
stance (disabling k) i = if leb k i then lit else gone
stance (joining k) i = if leb k i then if k == i then dim else lit else gone
stance freed i = gone

-- What a thread has from the handler, which returns `result` to it.
abbrev Keeps : (result : ℕ) → EntryPc → Type 0
Keeps result (stopping ret) = ret ≡ result
Keeps result (returned (some ret)) = ret ≡ result
Keeps result _ = Unit

-- The bit and the place of a thread in each stance. A thread that was never able to see its bit set
-- stands in the first loop, and one that has returned has run the handler and returned its result.
abbrev Stands : Stance → ℕ → EntryPc → Type 0
Stands unlit bit starting = bit ≡ 0
Stands unlit bit _ = ⊥
Stands lit bit (returned ret) = ⊥
Stands lit bit _ = bit ≡ 1
Stands dim bit (returned none) = ⊥
Stands dim bit _ = bit ≡ 0
Stands gone bit (returned (some ret)) = bit ≡ 0
Stands gone bit _ = ⊥

abbrev Suits : Stance → (result bit : ℕ) → EntryPc → Type 0
Suits st result bit pc = Stands st bit pc × Keeps result pc

entry_step-Stands :
    (bitmap : BitMap) (i result : ℕ) (st : Stance) (pc : EntryPc)
    → IsBytes bitmap
    → slot_of i ≡ i
    → Stands st (bit_at bitmap i) pc
    → Stands st (bit_at bitmap i) (entry_step bitmap i result pc)
unfolding entry_step
entry_step-Stands bitmap i result unlit starting bytes e h =
    rw (e, (tests_bit bitmap i bytes).0.1 h) h
entry_step-Stands bitmap i result lit starting bytes e h =
    let set : is_disabled_bit bitmap i ≡ false = ground (arith, (tests_bit bitmap i bytes).0, h) in
    rw (e, set) h
entry_step-Stands bitmap i result lit working bytes e h = h
entry_step-Stands bitmap i result lit (stopping ret) bytes e h =
    rw (e, (tests_bit bitmap i bytes).1.1 h) h
entry_step-Stands bitmap i result dim starting bytes e h =
    rw (e, (tests_bit bitmap i bytes).0.1 h) h
entry_step-Stands bitmap i result dim working bytes e h = h
entry_step-Stands bitmap i result dim (stopping ret) bytes e h =
    let clear : is_enabled_bit bitmap i ≡ false = ground (arith, (tests_bit bitmap i bytes).1, h) in
    rw (e, clear) h
entry_step-Stands bitmap i result dim (returned (some ret)) bytes e h = h
entry_step-Stands bitmap i result gone (returned (some ret)) bytes e h = h
entry_step-Stands bitmap i result unlit working bytes e h = elim h [ ]
entry_step-Stands bitmap i result unlit (stopping ret) bytes e h = elim h [ ]
entry_step-Stands bitmap i result unlit (returned _) bytes e h = elim h [ ]
entry_step-Stands bitmap i result lit (returned _) bytes e h = elim h [ ]
entry_step-Stands bitmap i result dim (returned none) bytes e h = elim h [ ]
entry_step-Stands bitmap i result gone starting bytes e h = elim h [ ]
entry_step-Stands bitmap i result gone working bytes e h = elim h [ ]
entry_step-Stands bitmap i result gone (stopping ret) bytes e h = elim h [ ]
entry_step-Stands bitmap i result gone (returned none) bytes e h = elim h [ ]

entry_step-Keeps :
    (bitmap : BitMap) (i result : ℕ) (pc : EntryPc)
    → Keeps result pc
    → Keeps result (entry_step bitmap i result pc)
unfolding entry_step
entry_step-Keeps bitmap i result starting k =
    elim (Bool-cases (is_disabled_bit bitmap (slot_of i))) [
      | inl off ↦ rw off tt
      | inr on ↦ rw on tt
    ]
entry_step-Keeps bitmap i result working k = refl
entry_step-Keeps bitmap i result (stopping ret) k =
    elim (Bool-cases (is_enabled_bit bitmap (slot_of i))) [ inl on ↦ rw on k | inr off ↦ rw off k ]
entry_step-Keeps bitmap i result (returned ret) k = k

entry_step-Suits :
    (bitmap : BitMap) (i result : ℕ) (st : Stance) (pc : EntryPc)
    → IsBytes bitmap
    → slot_of i ≡ i
    → Suits st result (bit_at bitmap i) pc
    → Suits st result (bit_at bitmap i) (entry_step bitmap i result pc)
entry_step-Suits bitmap i result st pc bytes e h =
    (entry_step-Stands bitmap i result st pc bytes e h.0, entry_step-Keeps bitmap i result pc h.1)

module _ (n : ℕ) (few : n ≤ 2 ^ 16) (result : ℕ → ℕ) where
  pub record IsOrderly (s : System) : Type 0 where
    pub bytes : IsBytes s.bitmap
    pub room : n ≤ 8 * length s.bitmap
    pub suits :
        (i : ℕ) → i < n → Suits (stance s.owner i) (result i) (bit_at s.bitmap i) (s.thread i)

  -- A step of the owner changes the stance of one thread at most.
  abbrev Stepped : (ℕ → EntryPc) → Option (BitMap × OwnerPc) → Type 0
  Stepped thread none = Unit
  Stepped thread (some (bitmap, owner)) =
      IsOrderly (record { bitmap = bitmap; thread = thread; owner = owner })

  lights : (bit : ℕ) (pc : EntryPc) → Stands unlit bit pc → Stands lit 1 pc
  lights bit starting h = refl
  lights bit working h = elim h [ ]
  lights bit (stopping ret) h = elim h [ ]
  lights bit (returned _) h = elim h [ ]

  dims : (bit : ℕ) (pc : EntryPc) → Stands lit bit pc → Stands dim 0 pc
  dims bit starting h = refl
  dims bit working h = refl
  dims bit (stopping ret) h = refl
  dims bit (returned _) h = elim h [ ]

  joins : (bit : ℕ) (pc : EntryPc) → has_returned pc ≡ true → Stands dim bit pc → Stands gone bit pc
  joins bit (returned (some ret)) r h = h
  joins bit (returned none) r h = elim h [ ]
  joins bit starting r h = absurd (ground arith)
  joins bit working r h = absurd (ground arith)
  joins bit (stopping ret) r h = absurd (ground arith)

  one_changed :
      (thread : ℕ → EntryPc) (bit bit' : ℕ → ℕ) (owner owner' : OwnerPc) (k i : ℕ)
      → (k ≢ i → (stance owner' i ≡ stance owner i) × (bit' i ≡ bit i))
      → (Stands (stance owner k) (bit k) (thread k) → Stands (stance owner' k) (bit' k) (thread k))
      → Suits (stance owner i) (result i) (bit i) (thread i)
      → Suits (stance owner' i) (result i) (bit' i) (thread i)
  one_changed thread bit bit' owner owner' k i others this h = elim (ℕ_discrete k i) [
    | yes same ↦ rw (← same) (this (rw same h.0), rw same h.1)
    | no differ ↦ let (a, b) = others differ in rw (a, b) h
  ]

  module _ (thread : ℕ → EntryPc) where
    enables :
        (bitmap : BitMap) (k : ℕ)
        → leb n k ≡ false
        → Stepped thread (some (bitmap, enabling k))
        → Stepped thread (some (enable_bit bitmap k, enabling (k + 1)))
    enables bitmap k inside v =
        let bit' : (i : ℕ)
            → bit_at (enable_bit bitmap k) i ≡ (if k == i then 1 else bit_at bitmap i) =
          λ i. bit_at-enable_bit bitmap k i (ground (arith, v.room)) in
        record {
          bytes = enable_bit-IsBytes bitmap k v.bytes;
          room = omega (arith, length-enable_bit bitmap k, v.room);
          suits = λ i h.
              one_changed thread (bit_at bitmap) (bit_at (enable_bit bitmap k)) (enabling k)
                (enabling (k + 1)) k i (λ differ. (ground arith, ground (arith, bit' i)))
                (λ was.
                  let a : stance (enabling k) k ≡ unlit = ground arith in
                  let b : stance (enabling (k + 1)) k ≡ lit = ground arith in
                  let c : bit_at (enable_bit bitmap k) k ≡ 1 = ground (arith, bit' k) in
                  rw (b, c) (lights (bit_at bitmap k) (thread k) (rw (← a) was)))
                (v.suits i h);
        }

    disables :
        (bitmap : BitMap) (k : ℕ)
        → leb n k ≡ false
        → Stepped thread (some (bitmap, disabling k))
        → Stepped thread (some (disable_bit bitmap k, joining k))
    disables bitmap k inside v =
        let bit' : (i : ℕ)
            → bit_at (disable_bit bitmap k) i ≡ (if k == i then 0 else bit_at bitmap i) =
          λ i. bit_at-disable_bit bitmap k i (ground (arith, v.room)) in
        record {
          bytes = disable_bit-IsBytes bitmap k v.bytes;
          room = omega (arith, length-disable_bit bitmap k, v.room);
          suits = λ i h.
              one_changed thread (bit_at bitmap) (bit_at (disable_bit bitmap k)) (disabling k)
                (joining k) k i (λ differ. (ground arith, ground (arith, bit' i)))
                (λ was.
                  let a : stance (disabling k) k ≡ lit = ground arith in
                  let b : stance (joining k) k ≡ dim = ground arith in
                  let c : bit_at (disable_bit bitmap k) k ≡ 0 = ground (arith, bit' k) in
                  rw (b, c) (dims (bit_at bitmap k) (thread k) (rw (← a) was)))
                (v.suits i h);
        }

    joined :
        (bitmap : BitMap) (k : ℕ)
        → has_returned (thread k) ≡ true
        → Stepped thread (some (bitmap, joining k))
        → Stepped thread (some (bitmap, disabling (k + 1)))
    joined bitmap k over v = record {
      bytes = v.bytes;
      room = v.room;
      suits = λ i h.
          one_changed thread (bit_at bitmap) (bit_at bitmap) (joining k) (disabling (k + 1)) k i
            (λ differ. (ground arith, refl))
            (λ was.
              let a : stance (joining k) k ≡ dim = ground arith in
              let b : stance (disabling (k + 1)) k ≡ gone = ground arith in
              rw b (joins _ (thread k) over (rw (← a) was)))
            (v.suits i h);
    }

    -- The others change no stance of a thread of the pool.
    same_stances :
        (bitmap : BitMap) (owner owner' : OwnerPc)
        → ((i : ℕ) → i < n → stance owner' i ≡ stance owner i)
        → Stepped thread (some (bitmap, owner))
        → Stepped thread (some (bitmap, owner'))
    same_stances bitmap owner owner' same v = record {
      bytes = v.bytes;
      room = v.room;
      suits = λ i h. rw (same i h) (v.suits i h);
    }

    owner_step-Stepped :
        (bitmap : BitMap) (owner : OwnerPc)
        → Stepped thread (some (bitmap, owner))
        → Stepped thread (owner_step n bitmap thread owner)
    unfolding owner_step
    owner_step-Stepped bitmap idle v = same_stances bitmap idle (enabling 0) (λ i h. ground arith) v
    owner_step-Stepped bitmap (enabling k) v = elim (Bool-cases (leb n k)) [
      | inl over ↦ rw over (same_stances bitmap (enabling k) running (λ i h. ground arith) v)
      | inr inside ↦ rw inside (enables bitmap k inside v)
    ]
    owner_step-Stepped bitmap running v =
        same_stances bitmap running (disabling 0) (λ i h. ground arith) v
    owner_step-Stepped bitmap (disabling k) v = elim (Bool-cases (leb n k)) [
      | inl over ↦ rw over (same_stances bitmap (disabling k) freed (λ i h. ground arith) v)
      | inr inside ↦ rw inside (disables bitmap k inside v)
    ]
    owner_step-Stepped bitmap (joining k) v = elim (Bool-cases (has_returned (thread k))) [
      | inl over ↦ rw over (joined bitmap k over v)
      | inr waits ↦ rw waits tt
    ]
    owner_step-Stepped bitmap freed v = tt

  turn-IsOrderly :
      (s : System) (i : ℕ)
      → IsOrderly s
      → IsOrderly
          (record s { thread = assign s.thread i (entry_step s.bitmap i (result i) (s.thread i)) })
  turn-IsOrderly s i v = record {
    bytes = v.bytes;
    room = v.room;
    suits = λ j h.
        elim (ℕ_discrete i j)
          as (λ d.
            Suits (stance s.owner j) (result j) (bit_at s.bitmap j)
              (ite d (entry_step s.bitmap i (result i) (s.thread i)) (s.thread j))) [
                | yes same ↦ rw same (
                    entry_step-Suits s.bitmap j (result j) (stance s.owner j) (s.thread j) v.bytes
                      (omega (arith, h)) (v.suits j h))
                | no differ ↦ v.suits j h
              ];
  }

  linked-IsOrderly : IsOrderly (linked n)
  unfolding linked entry
  linked-IsOrderly = record {
    bytes = clean_order-IsBytes _;
    room = omega (arith, length-clean_order ((n + 7) % 2 ^ 32 / 8));
    suits = λ i h.
        let inside : leb n (slot_of i) ≡ false = ground arith in
        rw inside (bit_at-clean_order _ i, tt);
  }

  -- The threads of a pool of at most 65536, interleaved in any way with each other and with the thread
  -- that starts and destroys the pool. A thread works only after its bit was set: before that it
  -- stands in its first loop. While its bit is set it does not return. Where the destruction has
  -- joined it, it has called the handler and returned what that returned to it, and its bit is clear;
  -- at the end of the destruction that holds of every thread.
  pub Moves-IsOrderly : {s : System} → Moves n result (linked n) s → IsOrderly s
  Moves-IsOrderly here = linked-IsOrderly
  Moves-IsOrderly (owns {s} {bitmap} {owner} m e) =
      subst (Stepped s.thread) e (owner_step-Stepped s.thread s.bitmap s.owner (Moves-IsOrderly m))
  Moves-IsOrderly (turns {s} m i) = turn-IsOrderly s i (Moves-IsOrderly m)
