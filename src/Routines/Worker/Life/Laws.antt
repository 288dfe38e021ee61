-- ===== src/Routines/Worker/Life/Laws.antt =====
-- The monitors of an executor and its workers.
use mcmp.Common.{ℕ, ◌<◌, ◌≡◌, true, Option, none, some, List, ◌==◌, if◌then◌else◌, length, get_or}
use mcmp.Bitmap.{bit_at}
use mcmp.Routines.Monitor.{static_monitors, Monitor, zeroed, Table}
use mcmp.Routines.Monitor.Laws.{IsTable}
use mcmp.Routines.Monitor.RoundTrip.{SameSlots}
use mcmp.SetQueue.Spec.{mem}
use mcmp.Routines.Worker.Life.{destroy_loop}

pool_of : Table → ℕ → ℕ
pool_of table k = (get_or table.monitors k zeroed).pool

-- What a monitor that is begun comes to: a slot that was free is taken by a monitor without a pool,
-- and the pools of the other monitors are as before; or there is no free slot.
Begins : Table → Option (ℕ × Table) → Type 0
Begins table none = (k : ℕ) → k < static_monitors → bit_at table.slots k ≡ 1
Begins table (some (slot, after)) =
    IsTable after
    × (slot < static_monitors)
    × (bit_at table.slots slot ≡ 0)
    × ((k : ℕ) → bit_at after.slots k ≡ (if slot == k then 1 else bit_at table.slots k))
    × ((k : ℕ) → pool_of after k ≡ (if slot == k then 0 else pool_of table k))

-- The free slots are all among fewer than `n`.
abbrev IsShort : (n : ℕ) → Table → Type 0
IsShort n table =
    (slots : List ℕ) × (length slots < n)
    × ((k : ℕ) → k < static_monitors → bit_at table.slots k ≡ 0 → mem k slots ≡ true)

-- The slots taken for `n` monitors: each was free, and is taken by a monitor without a pool.
Starts : (n : ℕ) → Table → Option (List ℕ × Table) → Type 0
Starts n table none = IsShort n table
Starts n table (some (slots, after)) =
    IsTable after
    × ((k : ℕ) → bit_at after.slots k ≡ (if mem k slots then 1 else bit_at table.slots k))
    × ((k : ℕ) → mem k slots ≡ true → bit_at table.slots k ≡ 0)
    × ((k : ℕ) → mem k slots ≡ true → k < static_monitors)
    × ((k : ℕ) → pool_of after k ≡ (if mem k slots then 0 else pool_of table k))

-- What the creation, the start and the destruction of an executor with `n` monitors do to the table.
abbrev pub Returns : (n : ℕ) → Table → Option (List ℕ × Table) → Type 0
Returns n table none = IsShort n table
Returns n table (some (slots, after)) =
    IsTable (destroy_loop slots after)
    × SameSlots (destroy_loop slots after) table
    × ((k : ℕ) → mem k slots ≡ true → (k < static_monitors) × (bit_at table.slots k ≡ 0))
