-- ===== src/Server/Broadcast.antt =====
-- server/src/linux/broadcast.c: the clients of the server, in slots that a bitmap hands out. A client
-- is the index of its slot.
pub mod Laws
mod Tests
use mcmp.Common.{
  ℕ, zero, suc, ◌+◌, ◌-◌, ◌*◌, ◌/◌, ◌%◌, ◌^◌, Bool, true, false, not, ◌||◌, Option, none, some, ℤ,
  pos, negsuc, List, [], ◌∷◌, size_add, ltb, leb, ◌==◌, if◌then◌else◌, length, get_or, set,
}
use mcmp.Status.{Status, success, overflow, out_of_mem, noavle}
use mcmp.Bitmap.{BitMap, clean_order, enable_bit, disable_bit, is_disabled_bit}
use mcmp.Bitmap.Scan.{Scan, found, missing, fault, hung, next_available_bit}

-- `sizeof(McmchAddressInput)`, `sizeof(struct McmchBroadcastHeader)` and
-- `sizeof(struct McmchClientImpl)`
abbrev pub address_size : ℕ
address_size = 32

abbrev pub header_size : ℕ
header_size = 16

abbrev pub client_size : ℕ
client_size = 64

-- `struct McmchBroadcastHeader`, the bitmap, and the addresses of the clients behind it. The pointer
-- back to the broadcast is the broadcast itself.
pub record Broadcast : Type 0 where
  pub full_length : ℕ
  pub bitmap_length : ℕ
  pub bitmap : BitMap
  pub clients : List (List ℕ)

-- `mcmchBroadcastCreate`; `memory` is what `malloc` leaves in the clients, or `none` for NULL. The
-- status is what it stores to `mcmchstret` then.
pub data Created : Type 0 where
  null : Status → Created
  made : Broadcast → Created

unfoldable pub create : Option (List (List ℕ)) → ℕ → Created
create none capacity = null out_of_mem
create (some memory) capacity =
    let bitmap_length = size_add capacity 7 / 8 in
    made (record {
      full_length = capacity;
      bitmap_length = bitmap_length;
      bitmap = clean_order bitmap_length;
      clients = memory;
    })

-- `overrun` is a copy of more bytes than an address has room for, and `crashed` a scan that reads out
-- of the bitmap or does not end.
pub data Added : Type 0 where
  refused : Status → Added
  added : ℕ → Broadcast → Added
  overrun crashed : Added

-- The bytes of `new` over the first ones of `old`.
abbrev pub overlay : List ℕ → List ℕ → List ℕ
overlay [] old = old
overlay (byte ∷ new) [] = byte ∷ overlay new []
overlay (byte ∷ new) (_ ∷ old) = byte ∷ overlay new old

abbrev pub placed : Broadcast → List ℕ → Scan → Added
placed broadcast address (found ni) =
    if leb broadcast.full_length ni
    then refused overflow
    else if ltb address_size (length address)
    then overrun
    else added ni (record broadcast {
      clients = set broadcast.clients ni (overlay address (get_or broadcast.clients ni []));
      bitmap = enable_bit broadcast.bitmap ni;
    })
placed broadcast address missing = refused overflow
placed broadcast address fault = crashed
placed broadcast address hung = crashed

-- `mcmchBroadcastAddClient`; the length of `address` is `addrlen`.
unfoldable pub add_client : Broadcast → List ℕ → Added
add_client broadcast address =
    placed broadcast address (next_available_bit broadcast.bitmap 0 broadcast.bitmap_length)

-- `client - MCH_BC_GET_CLIENTS(client)`: the macro takes the client for the header of a broadcast, and
-- `length_field` is what stands 8 bytes into it, in the place of `bitmap_length`. The two pointers are
-- `header_size + length_field` bytes apart; in elements that is defined for a multiple of their size.
abbrev pub slot_of : ℕ → Option ℤ
slot_of length_field =
    if (header_size + length_field) % client_size == 0
    then elim ((header_size + length_field) / client_size) [
      | zero ↦ some (pos 0)
      | suc k ↦ some (negsuc k)
    ]
    else none

abbrev pub freed : Broadcast → Option ℤ → Option (Status × Broadcast)
freed broadcast none = none
freed broadcast (some (negsuc k)) = some (overflow, broadcast)
freed broadcast (some (pos ni)) =
    let outcome =
      if leb broadcast.full_length ni
      then (overflow, broadcast)
      else if is_disabled_bit broadcast.bitmap ni
      then (noavle, broadcast)
      else (success, record broadcast { bitmap = disable_bit broadcast.bitmap ni }) in
    some outcome

-- The eight bytes of a client from byte 8 on, as a little-endian `size_t`.
unfoldable pub little_endian : List ℕ → (first count : ℕ) → ℕ
little_endian bytes first zero = 0
little_endian bytes first (suc count) =
    get_or bytes first 0 + 256 * little_endian bytes (first + 1) count

-- `mcmchBroadcastDelClient` of the client in a slot; `none` is undefined behaviour.
unfoldable pub del_client : Broadcast → ℕ → Option (Status × Broadcast)
del_client broadcast client =
    freed broadcast (slot_of (little_endian (get_or broadcast.clients client []) 8 8))
