-- ===== src/Server/Clients/Tests.antt =====
-- The theorems on the clients at concrete slots.
use mcmp.Common.{ℕ, zero, suc, ◌+◌, ◌*◌, ◌≡◌, ◌<◌, refl, arith, true, false, some, [], ◌∷◌, get_or}
use mcmp.Status.{success}
use mcmp.Bitmap.{bit_at, disable_bit}
use mcmp.Bitmap.Scan.{next_available_bit, next_occupied_bit}
use mcmp.Server.Clients.{Client, nobody, Broadcast, added, add, del, Flushing, flush}
use mcmp.Server.Clients.Laws.{IsValid, add-del_roundtrip}
use mcmp.Server.Clients.Loops.{taken_fds, flush_lem}

abbrev visitor : Client
visitor = record { fd = 9; alive = true }

-- Four slots, the first and the third taken.
abbrev two_taken : Broadcast
two_taken = record {
  fullength = 4;
  bitmap_length = 1;
  bitmap = 5 ∷ [];
  clients =
      record { fd = 6; alive = true } ∷ nobody ∷ record { fd = 8; alive = false } ∷ nobody ∷ [];
}

two_taken_byte : (i : ℕ) → get_or two_taken.bitmap i 0 < 256
two_taken_byte zero = omega arith
two_taken_byte (suc i) = omega arith

two_taken-IsValid : IsValid two_taken
two_taken-IsValid = record {
  fits = omega arith;
  covers = refl;
  all_slots = refl;
  room = omega arith;
  bytes = two_taken_byte;
}

third : (after : Broadcast) × (add two_taken visitor ≡ added 1 after)
unfolding add next_available_bit mcmp.Bits.ctz
third = (_, refl)

add-del_roundtrip_example :
    (last : Broadcast) × (del 24 4096 third.0 (4096 + 1 * 24) ≡ some (success, last))
    × IsValid last
    × ((k : ℕ) → bit_at last.bitmap k ≡ bit_at two_taken.bitmap k)
add-del_roundtrip_example =
    add-del_roundtrip two_taken visitor two_taken-IsValid 24 4096 1 third.0 (omega arith)
      (omega arith) third.1

flush_lem_example :
    (last : Flushing) × (flush two_taken ≡ some last)
    × (last.closed ≡ taken_fds two_taken (5 ∷ []) 8 0)
    × ((i : ℕ) → i < 8 → bit_at last.bitmap i ≡ 0)
flush_lem_example = flush_lem two_taken two_taken-IsValid

closes_two : flush two_taken ≡ some (record { bitmap = 0 ∷ []; closed = 6 ∷ 8 ∷ [] })
unfolding flush mcmp.Bitmap.Walk.walk mcmp.Bitmap.Walk.walk_from next_occupied_bit mcmp.Bits.ctz
    disable_bit mcmp.Bitmap.Scan.sweep mcmp.Bitmap.Scan.words mcmp.Bitmap.Scan.bytes
closes_two = refl
