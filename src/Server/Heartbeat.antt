-- ===== src/Server/Heartbeat.antt =====
-- server/src/common/heartbeat.c: the sweep that finds the clients that have shown no sign of life since
-- the last one, and the pass that drops them. `clients` and `slots` are those of the clients' slots
-- (server/src/common/clients.c), `bitmap` has the clients to drop. A slot
-- behind the clients reads as one that nobody uses.
pub mod Laws
pub mod Pass
pub mod Life
mod Tests
use mcmp.Common.{ℕ, ◌+◌, Bool, true, false, Option, List, if◌then◌else◌, get_or, set}
use mcmp.Status.{Status, success, noavle, not_implemented}
use mcmp.Bitmap.{BitMap, enable_bit}
use mcmp.Bitmap.Scan.{Scan, found, missing, fault, hung, next_occupied_bit}
use mcmp.Bitmap.Walk.{Turn, goes, walk}
use mcmp.Routines.MonitorLock.{Tried, acquired, unavailable, undefined, try_acquire, release}
use mcmp.Server.Clients.{Client, nobody, Broadcast}

-- The clients and the marks while the loop of `mcmchHeartbeatCall` runs.
pub record Sweep : Type 0 where
  pub clients : List Client
  pub result : BitMap

abbrev pub call_body : (slot : ℕ) → Sweep → Turn Sweep
call_body slot s =
    let client = get_or s.clients slot nobody in
    if client.alive
    then goes (record s { clients = set s.clients slot (record client { alive = false }) })
    else goes (record s { result = enable_bit s.result slot })

-- `mcmchHeartbeatCall`
unfoldable pub call : Broadcast → (result : BitMap) → Option Sweep
call broadcast result =
    walk (λ s. broadcast.bitmap) broadcast.bitmap_length call_body
      (record { clients = broadcast.clients; result = result })

-- `McmchHeartBeatHeader` with the bitmap behind it, as far as the loops use it.
pub record Heartbeat : Type 0 where
  pub lock : ℕ
  pub available : Bool
  pub bitmap : BitMap

-- What comes of `mcmchHeartbeatProcessIfAvaible`: a status, or the end of the body without one. In
-- the loop the client is NULL, which `mcmchClientClose` reads: `dereferences`.
pub data Processed : Type 0 where
  refused : Status → Heartbeat → Processed
  finished : Heartbeat → Processed
  dereferences : (bitidx : ℕ) → Processed
  crashed : Processed

abbrev pub dropped : (main monitor : ℕ) → Heartbeat → Scan → Processed
dropped main monitor heartbeat missing =
    let (status, word) = release main monitor heartbeat.lock in
    finished (record heartbeat { lock = word; available = false })
dropped main monitor heartbeat (found bitidx) = dereferences bitidx
dropped main monitor heartbeat _ = crashed

abbrev pub locked : (main monitor len : ℕ) → Heartbeat → Tried → Processed
locked main monitor len heartbeat (acquired pauses word) =
    let held : Heartbeat = record heartbeat { lock = word } in
    let (status, word') = release main monitor word in
    if heartbeat.available
    then dropped main monitor held (next_occupied_bit heartbeat.bitmap 0 len)
    else refused not_implemented (record heartbeat { lock = word' })
locked main monitor len heartbeat (unavailable pauses) = refused noavle heartbeat
locked main monitor len heartbeat undefined = crashed

-- `mcmchHeartbeatProcessIfAvaible` by a thread of `monitor`; `words` is what its tries find in the
-- lock, and `len` the length of the bitmap.
unfoldable pub process_if_available :
    (main monitor : ℕ) → (words : ℕ → ℕ) → (len : ℕ) → Heartbeat → Processed
process_if_available main monitor words len heartbeat =
    locked main monitor len heartbeat (try_acquire main monitor words 16)
