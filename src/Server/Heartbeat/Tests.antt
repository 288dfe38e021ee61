-- ===== src/Server/Heartbeat/Tests.antt =====
-- The theorems on the heartbeat at concrete clients.
use mcmp.Common.{ℕ, zero, suc, ◌≡◌, ◌<◌, arith, true, false, some, [], ◌∷◌, get_or}
use mcmp.Bitmap.{bit_at}
use mcmp.Bitmap.Scan.Exact.{IsStored}
use mcmp.Server.Clients.{nobody, Broadcast}
use mcmp.Server.Heartbeat.{Sweep, call, Heartbeat}
use mcmp.Server.Heartbeat.Laws.{two_calls_lem}

-- Three slots, two of them taken; the client in the first one is alive.
abbrev room : Broadcast
room = record {
  fullength = 3;
  bitmap_length = 1;
  bitmap = 5 ∷ [];
  clients = record { fd = 6; alive = true } ∷ nobody ∷ record { fd = 8; alive = false } ∷ [];
}

one_byte : (byte : ℕ) → byte < 256 → (i : ℕ) → get_or (byte ∷ []) i 0 < 256
one_byte byte small zero = small
one_byte byte small (suc i) = omega arith

room-IsStored : IsStored room.bitmap room.bitmap_length
room-IsStored = record {
  holds_bytes = one_byte 5 (omega arith);
  holds_len = omega arith;
  fits = omega arith;
}

two_calls_lem_example :
    (first second : Sweep) × (call room (0 ∷ []) ≡ some first)
    × (call (record room { clients = first.clients }) first.result ≡ some second)
    × ((i : ℕ) → i < 8 → bit_at room.bitmap i ≡ 1 → bit_at second.result i ≡ 1)
two_calls_lem_example = two_calls_lem room (0 ∷ []) room-IsStored (omega arith)

-- A sweep has marked the third client.
abbrev marked : Heartbeat
marked = record { lock = 0; available = true; bitmap = 4 ∷ [] }

marked-IsStored : IsStored marked.bitmap 1
marked-IsStored = record {
  holds_bytes = one_byte 4 (omega arith);
  holds_len = omega arith;
  fits = omega arith;
}
