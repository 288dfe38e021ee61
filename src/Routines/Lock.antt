-- ===== src/Routines/Lock.antt =====
-- routines/src/linux/lock.c: a table of 64 mutexes, handed out by an atomic bitmap. A `McmchLock` is
-- the address of its mutex; the table stands at the address `registries`.
pub mod Laws
mod Tests
use mcmp.Common.{
  ℕ, zero, suc, ◌+◌, ◌-◌, ◌*◌, ◌/◌, ◌%◌, ◌^◌, Bool, true, false, not, ◌&&◌, Option, none, some, ℤ,
  pos, negsuc, leb, ltb, ◌==◌, if◌then◌else◌,
}
use mcmp.Status.{Status, success, overflow, not_implemented}
use mcmp.Bitmap.{BitMap, disable_bit}
use mcmp.Bitmap.Scan.{Scan, found, missing, fault, hung, Memory, atomic_next_available_bit}
use mcmp.Bitmap.Atomic.{try_enable_bit}

-- `sizeof(struct McmchLockProtected_t)`, `REGISTRIES_STATIC_SIZE` and `SLOTS_STATIC_SIZE`
abbrev pub lock_size : ℕ
lock_size = 64

abbrev pub registries_size : ℕ
registries_size = 4096 / 64

abbrev pub slots_size : ℕ
slots_size = 64 / 8

-- The slots as the other threads leave them for the accesses of one try: for each load of the scan,
-- and for the load and the exchange of the attempt.
pub record Round : Type 0 where
  pub scanned : Memory
  pub loaded : BitMap
  pub current : BitMap

-- `made` has the slot of the lock and the slots right after the exchange. `crashed` is a scan that
-- reads out of the slots or does not end.
pub data Created : Type 0 where
  refused : Status → Created
  made : ℕ → BitMap → Created
  crashed : Created

abbrev pub attempted : ℕ → Created → Status × BitMap → Created
attempted slot retry (success, slots) = made slot slots
attempted slot retry (_, slots) = retry

abbrev pub tried : Round → Created → Scan → Created
tried round retry (found slot) =
    attempted slot retry (try_enable_bit round.loaded round.current slot)
tried round retry missing = refused overflow
tried round retry fault = crashed
tried round retry hung = crashed

-- The loop of `mcmchLockCreate` with `left` tries to go; the tries so far are `tries`.
unfoldable pub create_loop : (ℕ → Round) → (left tries : ℕ) → Created
create_loop rounds zero tries = refused overflow
create_loop rounds (suc left) tries =
    let retry = create_loop rounds left (tries + 1) in
    let round = rounds tries in
    tried round retry (atomic_next_available_bit round.scanned 0 slots_size)

-- `mcmchLockCreate`; `registry` tells that the argument is not NULL. `pthread_mutex_init` touches the
-- mutex alone.
unfoldable pub create : Bool → (ℕ → Round) → Created
create true rounds = refused not_implemented
create false rounds = create_loop rounds 100 0

-- `registries - lock` in elements, for a lock that is not below the table.
abbrev pub slot_of : ℕ → ℕ → ℤ
slot_of registries lock = elim ((lock - registries) / lock_size) [
  | zero ↦ pos zero
  | suc k ↦ negsuc k
]

-- `mcmchBitmapDisableBit` at any `bitidx_t`. At a negative one it shifts by a negative number or
-- writes in front of the bitmap: `none`.
abbrev pub disable_slot : BitMap → ℤ → Option BitMap
disable_slot slots (pos i) = some (disable_bit slots i)
disable_slot slots (negsuc i) = none

abbrev pub destroyed : Option BitMap → Option (Status × BitMap)
destroyed none = none
destroyed (some slots) = some (success, slots)

-- `mcmchLockDestroy`; `none` is undefined behaviour.
unfoldable pub destroy : ℕ → BitMap → ℕ → Option (Status × BitMap)
destroy registries slots lock =
    if not (leb registries lock && ltb lock (registries + registries_size * lock_size))
    then some (not_implemented, slots)
    else destroyed (disable_slot slots (slot_of registries lock))

-- The address that `mcmchLockCreate` stores for a slot.
abbrev pub lock_at : ℕ → ℕ → ℕ
lock_at registries slot = registries + slot * lock_size
