-- ===== src/Server/Heartbeat/Life.antt =====
-- server/src/common/heartbeat.c: the creation and the destruction of a heartbeat over the monitors of
-- routines/src/linux/monitor.c.
pub mod Laws
mod Tests
use mcmp.Common.{ℕ, Bool, true, false, Option, none, some}
use mcmp.Status.{Status, out_of_mem}
use mcmp.Bitmap.{clean_order}
use mcmp.Routines.Monitor.{Table, Created, refused, made, crashed, Destroyed}
use mcmp.Routines.Monitor
use mcmp.Server.Heartbeat.{Heartbeat}

-- A heartbeat; `monitor` is the index of its monitor, or `none` where the field has what malloc left.
pub record Instance : Type 0 where
  pub monitor : Option ℕ
  pub heartbeat : Heartbeat

pub data Birth : Type 0 where
  null : Status → Birth
  born : Instance → Table → Birth
  faulty : Birth

-- The status of `mcmchMonitorCreate` is not looked at.
abbrev pub with_monitor : Heartbeat → Table → Created → Birth
with_monitor heartbeat table (refused status) =
    born (record { monitor = none; heartbeat = heartbeat }) table
with_monitor heartbeat table (made slot table') =
    born (record { monitor = some slot; heartbeat = heartbeat }) table'
with_monitor heartbeat table crashed = faulty

-- `mcmchHeartbeatCreateInstance`; `memory` is the word that malloc leaves in the field `lock`, or `none`
-- for NULL, `length` the length of the broadcast's bitmap, and `self` the new heartbeat.
unfoldable pub create_instance :
    (memory : Option ℕ) → Table → (pool handler length self : ℕ) → Birth
create_instance none table pool handler length self = null out_of_mem
create_instance (some word) table pool handler length self =
    with_monitor (record { lock = word; available = false; bitmap = clean_order length }) table
      (Monitor.create table pool handler self)

-- A heartbeat without a monitor has a wild pointer there.
pub data Death : Type 0 where
  ended : Destroyed → Death
  wild : Death

-- `mcmchHeartbeatDestroyInstance`; `joinable` are the threads that can be joined.
abbrev pub without_monitor : (joinable : ℕ → Bool) → Table → Option ℕ → Death
without_monitor joinable table none = wild
without_monitor joinable table (some slot) = ended (Monitor.destroy joinable table slot)

unfoldable pub destroy_instance : (joinable : ℕ → Bool) → Instance → Table → Death
destroy_instance joinable hb table = without_monitor joinable table hb.monitor
