-- ===== src/Routines/Monitor.antt =====
-- routines/src/linux/monitor.c: the static table of 512 monitors, handed out by a bitmap, and the loop
-- that a monitor's thread runs. Pointers are numbers, with 0 for NULL. Child module MonitorLock of
-- Routines has the locks of the same file.
pub mod Laws
pub mod Handler
pub mod RoundTrip
mod Tests
use mcmp.Common.{
  ℕ, zero, suc, ◌+◌, ◌*◌, ◌/◌, ◌^◌, Bool, true, false, not, Option, none, some, List, [], ◌∷◌, ◌==◌,
  leb, if◌then◌else◌, get_or, set,
}
use mcmp.Status.{Status, success, overflow, ovtimeout, critical, not_implemented}
use mcmp.Bitmap.{BitMap, enable_bit, disable_bit}
use mcmp.Bitmap.Scan.{Scan, found, missing, fault, hung, next_available_bit}

-- `MCMCHMONITOR_STATIC_MONITORS` and `MCMCHMONITOR_STATIC_SLOTS`
abbrev pub static_monitors : ℕ
static_monitors = 512

abbrev pub static_slots : ℕ
static_slots = (static_monitors + 7) / 8

-- `struct McmchMonitorUnixImpl`
pub record Monitor : Type 0 where
  pub pool : ℕ
  pub pipeline : ℕ
  pub ctx : ℕ
  pub running : Bool
  pub beat : ℕ

abbrev pub zeroed : Monitor
zeroed = record { pool = 0; pipeline = 0; ctx = 0; running = false; beat = 0 }

-- The static arrays `monitors` and `slots`.
pub record Table : Type 0 where
  pub monitors : List Monitor
  pub slots : BitMap

-- `made` has the index of the monitor in the table. `crashed` is a scan that reads out of the slots or
-- does not end.
pub data Created : Type 0 where
  refused : Status → Created
  made : ℕ → Table → Created
  crashed : Created

abbrev pub placed : Table → ℕ → ℕ → Scan → Created
placed table handler ctx (found slot) =
    let old = get_or table.monitors slot zeroed in
    let monitor = record old { pool = 0; ctx = ctx; beat = handler; running = false } in
    if leb static_monitors slot
    then refused overflow
    else made slot
        (record { monitors = set table.monitors slot monitor; slots = enable_bit table.slots slot })
placed table handler ctx missing = refused overflow
placed table handler ctx fault = crashed
placed table handler ctx hung = crashed

-- `mcmchMonitorCreateStatic`
unfoldable pub create_static : Table → ℕ → ℕ → Created
create_static table handler ctx =
    placed table handler ctx (next_available_bit table.slots 0 static_slots)

-- `mcmchMonitorCreate`
unfoldable pub create : Table → (pool handler ctx : ℕ) → Created
create table pool handler ctx =
    if pool == 0 then create_static table handler ctx else refused not_implemented

-- `mcmchMonitorStart`; `pipeline` is what `pthread_create` stores.
unfoldable pub start : Table → (pipeline slot : ℕ) → Table
start table pipeline slot =
    let monitor = get_or table.monitors slot zeroed in
    record table {
      monitors = set table.monitors slot (record monitor { running = true; pipeline = pipeline });
    }

-- What `mcmchMonitorDestroy` leaves once the thread of the monitor at `slot` has been joined.
unfoldable pub after_join : Table → ℕ → Table
after_join table slot =
    let monitor = get_or table.monitors slot zeroed in
    record {
      monitors = set table.monitors slot (record monitor { running = false });
      slots = if monitor.pool == 0 then disable_bit table.slots slot else table.slots;
    }

-- `joined` is the thread that was signalled and joined. Without a thread to join under that name, what
-- `pthread_kill` and `pthread_join` do is undefined.
pub data Destroyed : Type 0 where
  undefined : Destroyed
  destroyed : (joined : ℕ) → Table → Destroyed

-- `mcmchMonitorDestroy` of the monitor at `slot`; `joinable` are the names of the threads that have been
-- made and not joined yet. The thread ends, as its loop finds `running` cleared when it is signalled.
unfoldable pub destroy : (joinable : ℕ → Bool) → Table → ℕ → Destroyed
destroy joinable table slot =
    let thread = (get_or table.monitors slot zeroed).pipeline in
    if joinable thread then destroyed thread (after_join table slot) else undefined

-- What `sigwait` returned to the loop of a monitor: whether it was -1, with `errno`; and the flag
-- `running` where the loop then tests it, first right after `sigwait` and then at its head.
pub data Errno : Type 0 where
  eagain eintr other : Errno

pub record Wake : Type 0 where
  pub failed : Option Errno
  pub running : Bool
  pub stays : Bool

-- `__priv__mcmch_monitor_handler`: the states with which it calls `beat` while `sigwait` returns with
-- the wakes in order. After the last wake the thread waits.
unfoldable pub handler_loop : Bool → List Wake → List Status
handler_loop false wakes = []
handler_loop true [] = []
handler_loop true (wake ∷ wakes) =
    let rest = handler_loop wake.stays wakes in
    if not wake.running
    then []
    else success ∷ elim wake.failed [
      | none ↦ rest
      | some eagain ↦ ovtimeout ∷ rest
      | some eintr ↦ rest
      | some other ↦ critical ∷ []
    ]
