-- ===== src/Routines/Pool/Missed.antt =====
-- A pool that is destroyed before its threads have looked at their bits.
use native.Mathlib.Decide.{ℕ_discrete}
use mathlib.Core.Logic.{ite}
use mcmp.Common.{
  ℕ, zero, suc, ◌+◌, ◌^◌, ◌≤◌, ◌<◌, ◌≡◌, refl, sym, ◌∙◌, arith, true, false, none, leb,
}
use mcmp.Bitmap.{BitMap, IsBytes, bit_at, enable_bit, disable_bit}
use mcmp.Bitmap.Laws.{tests_bit, bit_at-disable_bit, disable_bit-IsBytes}
use mcmp.Routines.Pool.{
  slot_of, EntryPc, starting, entry, entry_step, OwnerPc, enabling, running, disabling, joining,
  System, owner_step, assign, Moves, here, owns, turns, linked,
}
use mcmp.Routines.Pool.Safety.{Moves-IsOrderly}

-- The owner waits for thread `k`, which waits for its bit.
pub record IsStuck (k : ℕ) (s : System) : Type 0 where
  pub bytes : IsBytes s.bitmap
  pub clear : bit_at s.bitmap k ≡ 0
  pub waits : s.thread k ≡ starting
  pub joins : s.owner ≡ joining k

module _ (n k : ℕ) (result : ℕ → ℕ) (few : n ≤ 2 ^ 16) (inside : k < n) where
  no_step :
      (bitmap : BitMap) (thread : ℕ → EntryPc) (owner : OwnerPc)
      → thread k ≡ starting
      → owner ≡ joining k
      → owner_step n bitmap thread owner ≡ none
  unfolding owner_step
  no_step bitmap thread owner w j = rw (j, w) refl

  turn-IsStuck :
      (s : System) (i : ℕ)
      → IsStuck k s
      → IsStuck k
          (record s { thread = assign s.thread i (entry_step s.bitmap i (result i) (s.thread i)) })
  unfolding entry_step
  turn-IsStuck s i v = record {
    bytes = v.bytes;
    clear = v.clear;
    waits =
        elim (ℕ_discrete i k)
          as (λ d. ite d (entry_step s.bitmap i (result i) (s.thread i)) (s.thread k) ≡ starting) [
            | yes same ↦
                let slot : slot_of k ≡ k = omega arith in
                rw (same, v.waits, slot, (tests_bit s.bitmap k v.bytes).0.1 v.clear) refl
            | no differ ↦ v.waits
          ];
    joins = v.joins;
  }

  -- Once the owner waits in the join of a thread that is still in its first loop and whose bit is
  -- clear, it waits for ever: no step of any thread ends that.
  Moves-IsStuck : {s t : System} → IsStuck k s → Moves n result s t → IsStuck k t
  Moves-IsStuck v here = v
  Moves-IsStuck v (owns {s} m e) =
      let stuck = Moves-IsStuck v m in
      let both = sym e ∙ no_step s.bitmap s.thread s.owner stuck.waits stuck.joins in
      absurd (ground arith)
  Moves-IsStuck v (turns {s} m i) = turn-IsStuck s i (Moves-IsStuck v m)

-- The owner alone: the start sets every bit.
enabling-Moves :
    (n left k : ℕ) (result : ℕ → ℕ) (from : System) (bitmap : BitMap) (thread : ℕ → EntryPc)
    → left + k ≡ n
    → Moves n result from (record { bitmap = bitmap; thread = thread; owner = enabling k })
    → (bitmap' : BitMap) × Moves n result from
        (record { bitmap = bitmap'; thread = thread; owner = running })
unfolding owner_step
enabling-Moves n zero k result from bitmap thread all m =
    let over : leb n k ≡ true = ground arith in (bitmap, owns m (rw over refl))
enabling-Moves n (suc left) k result from bitmap thread all m =
    let inside : leb n k ≡ false = ground arith in
    enabling-Moves n left (k + 1) result from (enable_bit bitmap k) thread (omega (arith, all))
      (owns m (rw inside refl))

-- A pool of some threads, at most 65536, is started and destroyed before its first thread looks at its
-- bit, as nothing in the code prevents. Then the destruction never ends: it waits for that thread,
-- which waits for a bit that nobody sets again, whatever the threads do from there on.
pub start_destroy_hangs :
    (n : ℕ) (result : ℕ → ℕ)
    → 0 < n
    → n ≤ 2 ^ 16
    → (s : System) × Moves n result (linked n) s
      × ((t : System) → Moves n result s t → (t.owner ≡ joining 0) × (t.thread 0 ≡ starting))
unfolding owner_step linked entry
start_destroy_hangs n result some_thread few =
    let (bitmap, m) =
      enabling-Moves n n 0 result (linked n) (linked n).bitmap (linked n).thread (omega arith)
        (owns here refl) in
    let inside : leb n 0 ≡ false = ground arith in
    let begun : Moves n result (linked n)
        (record { bitmap = bitmap; thread = (linked n).thread; owner = disabling 0 }) =
      owns m refl in
    let orderly = Moves-IsOrderly n few result begun in
    (
      record { bitmap = disable_bit bitmap 0; thread = (linked n).thread; owner = joining 0 },
      owns begun (rw inside refl),
      λ t later.
          let stuck =
            Moves-IsStuck n 0 result few some_thread
              (record {
                bytes = disable_bit-IsBytes bitmap 0 orderly.bytes;
                clear = rw (bit_at-disable_bit bitmap 0 0 (omega (arith, orderly.room))) refl;
                waits = rw inside refl;
                joins = refl;
              })
              later in
          (stuck.joins, stuck.waits),
    )
