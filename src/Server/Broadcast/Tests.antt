-- ===== src/Server/Broadcast/Tests.antt =====
-- The theorems on broadcasts at concrete clients.
use mcmp.Common.{◌≡◌, refl, none, some, [], ◌∷◌, replicate}
use mcmp.Status.{overflow}
use mcmp.Server.Broadcast.{Broadcast, del_client, little_endian}

-- Two clients: one whose field is 48, so that the pointers are 64 bytes apart, and one whose is 0.
abbrev two_clients : Broadcast
two_clients = record {
  full_length = 2;
  bitmap_length = 1;
  bitmap = 3 ∷ [];
  clients = (0 ∷ 0 ∷ 0 ∷ 0 ∷ 0 ∷ 0 ∷ 0 ∷ 0 ∷ 48 ∷ []) ∷ replicate 16 0 ∷ [];
}

deletions :
    (del_client two_clients 0 ≡ some (overflow, two_clients)) × (del_client two_clients 1 ≡ none)
unfolding del_client little_endian
deletions = (refl, refl)
