-- ===== src/Routines/Lock/Laws.antt =====
-- What creation and destruction of locks do to the slots.
use mcmp.Common.{
  ℕ, zero, suc, ◌+◌, ◌-◌, ◌*◌, ◌/◌, ◌≤◌, ◌<◌, ◌≡◌, refl, arith, true, false, Option, none, some,
  pos, negsuc, leb, ltb,
}
use mcmp.Status.{Status, success, overflow, not_implemented}
use mcmp.Bitmap.{BitMap, IsBytes, bit_at, enable_bit, disable_bit}
use mcmp.Bitmap.Scan.{Scan, found, missing, fault, hung, available}
use mcmp.Bitmap.Scan.Sweep.{IsReadable, IsFirst}
use mcmp.Bitmap.Scan.Next.{atomic_next_available_bit-IsFirst}
use mcmp.Bitmap.Atomic.{try_enable_bit_lem, Attempt}
use mcmp.Routines.Lock.{
  Round, Created, refused, made, crashed, attempted, tried, create_loop, create, slots_size,
  registries_size, lock_size, slot_of, disable_slot, destroyed, destroy, lock_at,
}

-- Other threads may write anything, but bytes, and only within the eight of the slots.
pub record IsShared (round : Round) : Type 0 where
  pub scans : IsReadable round.scanned slots_size
  pub loads : IsBytes round.loaded

-- A lock is made in a slot of the table that was free at the exchange of one of the tries.
abbrev pub CreatesLock : (ℕ → Round) → Created → Type 0
CreatesLock rounds (refused status) = status ≡ overflow
CreatesLock rounds (made slot slots) =
    (slot < registries_size)
    × ((k : ℕ) × (bit_at (rounds k).current slot ≡ 0)
        × (slots ≡ enable_bit (rounds k).current slot))
CreatesLock rounds crashed = ⊥

attempted-CreatesLock :
    (rounds : ℕ → Round) (k slot : ℕ) (retry : Created) (r : Status × BitMap)
    → slot < registries_size
    → CreatesLock rounds retry
    → (r.0 ≡ success → bit_at (rounds k).current slot ≡ 0)
    → Attempt (rounds k).current (enable_bit (rounds k).current slot) r
    → CreatesLock rounds (attempted slot retry r)
attempted-CreatesLock rounds k slot retry (success, slots) inside later free e =
    (inside, (k, free refl, e))
attempted-CreatesLock rounds k slot retry (_, slots) inside later free e = later

tried-CreatesLock :
    (rounds : ℕ → Round) (k : ℕ) (retry : Created) (r : Scan)
    → IsShared (rounds k)
    → CreatesLock rounds retry
    → IsFirst available (rounds k).scanned 0 (8 * slots_size) r
    → CreatesLock rounds (tried (rounds k) retry r)
tried-CreatesLock rounds k retry (found slot) ok later f =
    let attempt = try_enable_bit_lem (rounds k).loaded (rounds k).current slot ok.loads in
    attempted-CreatesLock rounds k slot retry _ f.1 later attempt.0.0 attempt.0.1
tried-CreatesLock rounds k retry missing ok later f = refl
tried-CreatesLock rounds k retry fault ok later f = f
tried-CreatesLock rounds k retry hung ok later f = f

create_loop-CreatesLock :
    (rounds : ℕ → Round)
    → ((k : ℕ) → IsShared (rounds k))
    → (left tries : ℕ) → CreatesLock rounds (create_loop rounds left tries)
unfolding create_loop
create_loop-CreatesLock rounds ok zero tries = refl
create_loop-CreatesLock rounds ok (suc left) tries =
    tried-CreatesLock rounds tries _ _ (ok tries)
      (create_loop-CreatesLock rounds ok left (tries + 1))
      (atomic_next_available_bit-IsFirst (rounds tries).scanned 0 slots_size (ok tries).scans)

-- `mcmchLockCreate` without a registry returns under any interleaved writes of other threads to the
-- eight bytes of the slots: with OVERFLOW, or with a lock of the table whose slot was free at one of
-- its exchanges, and which that exchange has marked as taken, changing no other slot.
pub create_lem :
    (rounds : ℕ → Round)
    → ((k : ℕ) → IsShared (rounds k))
    → CreatesLock rounds (create false rounds)
unfolding create
create_lem rounds ok = create_loop-CreatesLock rounds ok 100 0

-- What `mcmchLockDestroy` does with the lock of a slot: it frees slot 0, and for every other slot the
-- index is negative.
abbrev pub Destroys : BitMap → ℕ → Option (Status × BitMap) → Type 0
Destroys slots zero result = result ≡ some (success, disable_bit slots 0)
Destroys slots (suc k) result = result ≡ none

-- `mcmchLockDestroy` of the lock of a slot of the table frees the slot if it is slot 0. For every other
-- slot it passes the negated index to `mcmchBitmapDisableBit`, which is undefined. An address outside
-- the table gives NOT_IMPLEMENTED and changes nothing.
pub destroy_lem :
    (registries slot : ℕ) (slots : BitMap)
    → (slot < registries_size
        → Destroys slots slot (destroy registries slots (lock_at registries slot)))
      × ((lock : ℕ)
          → lock < registries
          → destroy registries slots lock ≡ some (not_implemented, slots))
      × (registries_size ≤ slot
          → destroy registries slots (lock_at registries slot) ≡ some (not_implemented, slots))
unfolding destroy
destroy_lem registries slot slots =
    (inside slot, λ lock below. below_table lock below, λ beyond. beyond_table beyond)
  where
    below_table :
        (lock : ℕ)
        → lock < registries
        → destroy registries slots lock ≡ some (not_implemented, slots)
    below_table lock below = let low : leb registries lock ≡ false = ground arith in rw low refl

    beyond_table :
        registries_size ≤ slot
        → destroy registries slots (lock_at registries slot) ≡ some (not_implemented, slots)
    beyond_table beyond =
        let low : leb registries (lock_at registries slot) ≡ true = ground arith in
        let high : ltb (lock_at registries slot) (registries + registries_size * lock_size)
            ≡ false =
          ground arith in
        rw (low, high) refl

    at :
        (k : ℕ)
        → Destroys slots k
            (destroyed (disable_slot slots (elim k [ zero ↦ pos zero | suc j ↦ negsuc j ])))
    at zero = refl
    at (suc k) = refl

    inside :
        (k : ℕ)
        → k < registries_size
        → Destroys slots k (destroy registries slots (lock_at registries k))
    inside k h =
        let low : leb registries (lock_at registries k) ≡ true = ground arith in
        let high : ltb (lock_at registries k) (registries + registries_size * lock_size) ≡ true =
          ground arith in
        let index : (lock_at registries k - registries) / lock_size ≡ k = omega arith in
        rw (low, high, slot_of, index) (at k)
