-- ===== src/Server/Clients.antt =====
-- server/src/common/clients.c and server/src/linux/clients.c: the clients of the TCP server, in slots
-- that a bitmap hands out. The macros of the type of a client are in no header; here a client has a
-- descriptor and the flag ALIVE, and its place in memory is its slot.
pub mod Laws
pub mod Loops
mod Tests
use mcmp.Common.{
  ℕ, zero, suc, ◌+◌, ◌-◌, ◌*◌, ◌/◌, ◌%◌, ◌^◌, Bool, true, false, Option, none, some, List, [], ◌∷◌,
  ◌++◌, size_add, ltb, leb, ◌==◌, if◌then◌else◌, length, get_or, set,
}
use mcmp.Status.{Status, success, overflow, out_of_mem, invalign}
use mcmp.Bitmap.{BitMap, clean_order, enable_bit, disable_bit}
use mcmp.Bitmap.Scan.{Scan, found, missing, fault, hung, next_available_bit}
use mcmp.Bitmap.Walk.{Turn, goes, returns, walk}

-- `MCMCHCLIENT_ST`
pub record Client : Type 0 where
  pub fd : ℕ
  pub alive : Bool

abbrev pub nobody : Client
nobody = record { fd = 0; alive = false }

-- `mcmchclient_broadcast_header` with the bitmap and the clients behind it.
pub record Broadcast : Type 0 where
  pub fullength : ℕ
  pub bitmap_length : ℕ
  pub bitmap : BitMap
  pub clients : List Client

pub data Created : Type 0 where
  null : Status → Created
  made : Broadcast → Created

-- `mcmchClientCreateBroadcast`; `memory` is what `malloc` leaves in the clients, or `none` for NULL.
unfoldable pub create : Option (List Client) → ℕ → Created
create none capacity = null out_of_mem
create (some memory) capacity =
    let blen = size_add capacity 7 / 8 in
    made (record {
      fullength = capacity;
      bitmap_length = blen;
      bitmap = clean_order blen;
      clients = memory;
    })

-- `overrun` is a write behind the clients, and `crashed` a scan that reads out of the bitmap or does
-- not end.
pub data Added : Type 0 where
  refused : Status → Added
  added : (slot : ℕ) → Broadcast → Added
  overrun crashed : Added

-- The slot is compared with -1 only.
abbrev pub placed : Broadcast → Client → Scan → Added
placed broadcast client missing = refused overflow
placed broadcast client (found slot) =
    if leb broadcast.fullength slot
    then overrun
    else added slot (record broadcast {
      bitmap = enable_bit broadcast.bitmap slot;
      clients = set broadcast.clients slot client;
    })
placed broadcast client _ = crashed

-- `mcmchClientBroadcastAdd`
unfoldable pub add : Broadcast → Client → Added
add broadcast client =
    placed broadcast client (next_available_bit broadcast.bitmap 0 broadcast.bitmap_length)

-- `none` is a write outside the bitmap.
abbrev pub cleared : Broadcast → (idx : ℕ) → Option (Status × Broadcast)
cleared broadcast idx =
    if ltb (idx / 8) broadcast.bitmap_length
    then some (success, record broadcast { bitmap = disable_bit broadcast.bitmap idx })
    else none

-- `mcmchClientBroadcastDel` of the client at `address`, where the clients begin at `base` and one is
-- `client_size` bytes long.
unfoldable pub del :
    (client_size base : ℕ) → Broadcast → (address : ℕ) → Option (Status × Broadcast)
del client_size base broadcast address =
    let dif = (address + (2 ^ 64 - base)) % 2 ^ 64 in
    if dif % client_size == 0
    then cleared broadcast (dif / client_size)
    else some (invalign, broadcast)

-- The bitmap while the loop of `mcmchClientBroadcastFlush` runs, and the descriptors that
-- `mcmchClientClose` has taken out of the epoll set and closed.
pub record Flushing : Type 0 where
  pub bitmap : BitMap
  pub closed : List ℕ

abbrev pub flush_body : Broadcast → (bitidx : ℕ) → Flushing → Turn Flushing
flush_body broadcast bitidx s = goes (record {
  bitmap = disable_bit s.bitmap bitidx;
  closed = s.closed ++ ((get_or broadcast.clients bitidx nobody).fd ∷ []);
})

-- `mcmchClientBroadcastFlush`
unfoldable pub flush : Broadcast → Option Flushing
flush broadcast =
    walk (λ s. s.bitmap) broadcast.bitmap_length (flush_body broadcast)
      (record { bitmap = broadcast.bitmap; closed = [] })

-- The loop of `mcmchClientGetBitIndex` changes nothing but its answer.
abbrev pub index_body : Broadcast → (ctfd bitidx : ℕ) → Option ℕ → Turn (Option ℕ)
index_body broadcast ctfd bitidx s =
    if (get_or broadcast.clients bitidx nobody).fd == ctfd then returns (some bitidx) else goes s

-- `mcmchClientGetBitIndex`: the answer, where `none` is -1.
unfoldable pub get_bit_index : Broadcast → (ctfd : ℕ) → Option (Option ℕ)
get_bit_index broadcast ctfd =
    walk (λ s. broadcast.bitmap) broadcast.bitmap_length (index_body broadcast ctfd) none
