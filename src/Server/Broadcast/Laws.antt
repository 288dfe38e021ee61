-- ===== src/Server/Broadcast/Laws.antt =====
-- What is promised of the slots of the clients.
use mcmp.Common.{
  ℕ, suc, ◌+◌, ◌-◌, ◌/◌, ◌%◌, ◌^◌, ◌≤◌, ◌<◌, ◌≡◌, ◌≢◌, ◌⊎◌, refl, inl, inr, arith, none, some, List,
  [], size_add, ◌==◌, if◌then◌else◌, Bool-cases, length, get_or,
}
use mcmp.Status.{overflow}
use mcmp.Bitmap.{IsBytes, bit_at}
use mcmp.Bitmap.Laws.{bit_at-clean_order, length-clean_order, clean_order-IsBytes}
use mcmp.Bitmap.Scan.{Scan}
use mcmp.Server.Broadcast.{
  header_size, client_size, Broadcast, made, create, Added, refused, added, overrun, crashed,
  overlay, slot_of, freed, little_endian, del_client,
}

pub record IsValid (broadcast : Broadcast) : Type 0 where
  pub fits : broadcast.full_length < 2 ^ 60
  pub covers : broadcast.bitmap_length ≡ (broadcast.full_length + 7) / 8
  pub all_slots : length broadcast.bitmap ≡ broadcast.bitmap_length
  pub room : broadcast.full_length ≤ length broadcast.clients
  pub bytes : IsBytes broadcast.bitmap

-- `mcmchBroadcastCreate`, given memory, makes a valid broadcast of the capacity asked for, with every
-- slot free. The capacity is below 2 ^ 60, and the memory has room for as many clients.
pub create-IsValid :
    (memory : List (List ℕ)) (capacity : ℕ)
    → capacity < 2 ^ 60
    → capacity ≤ length memory
    → (broadcast : Broadcast) × (create (some memory) capacity ≡ made broadcast)
      × (broadcast.full_length ≡ capacity)
      × IsValid broadcast
      × ((k : ℕ) → bit_at broadcast.bitmap k ≡ 0)
unfolding create
create-IsValid memory capacity small room =
    let len = size_add capacity 7 / 8 in
    (
      _,
      refl,
      refl,
      record {
        fits = small;
        covers = omega arith;
        all_slots = length-clean_order len;
        room = room;
        bytes = clean_order-IsBytes len;
      },
      bit_at-clean_order len,
    )

-- What an addition promises.
abbrev pub Adds : Broadcast → List ℕ → Added → Type 0
Adds broadcast address (refused status) =
    (status ≡ overflow) × ((k : ℕ) → k < broadcast.full_length → bit_at broadcast.bitmap k ≡ 1)
Adds broadcast address (added ni after) =
    IsValid after
    × (ni < broadcast.full_length)
    × (bit_at broadcast.bitmap ni ≡ 0)
    × ((k : ℕ) → bit_at after.bitmap k ≡ (if ni == k then 1 else bit_at broadcast.bitmap k))
    × (get_or after.clients ni [] ≡ overlay address (get_or broadcast.clients ni []))
    × ((k : ℕ) → ni ≢ k → get_or after.clients k [] ≡ get_or broadcast.clients k [])
Adds broadcast address overrun = ⊥
Adds broadcast address crashed = ⊥

-- `mcmchBroadcastDelClient` removes no client: whatever the client holds, the call is undefined or it
-- reports OVERFLOW and changes nothing, since it takes the position of the client from the client
-- itself in place of the broadcast.
pub del_client_lem :
    (broadcast : Broadcast) (client : ℕ)
    → (del_client broadcast client ≡ none)
      ⊎ (del_client broadcast client ≡ some (overflow, broadcast))
unfolding del_client
del_client_lem broadcast client = by_field (little_endian (get_or broadcast.clients client []) 8 8)
  where
    by_field :
        (field : ℕ)
        → (freed broadcast (slot_of field) ≡ none)
          ⊎ (freed broadcast (slot_of field) ≡ some (overflow, broadcast))
    by_field field = elim (Bool-cases ((header_size + field) % client_size == 0)) [
      | inr uneven ↦ rw uneven (inl refl)
      | inl even ↦
          let before : (header_size + field) / client_size
              ≡ suc ((header_size + field) / client_size - 1) =
            ground arith in
          rw (even, before) (inr refl)
    ]
