-- ===== src/Server/Clients/Laws.antt =====
-- What is promised of the slots of the clients.
use native.Mathlib.Nat.{mul-div_cancel, mul-mod_left}
use native.Mathlib.Decide.{ℕ_discrete}
use mathlib.Core.Path.{subst}
use mcmp.Common.{
  ℕ, ◌+◌, ◌-◌, ◌*◌, ◌/◌, ◌%◌, ◌^◌, ◌≤◌, ◌<◌, ◌≡◌, ◌≢◌, refl, inl, inr, arith, true, some, List,
  size_add, ltb, leb, ◌==◌, if◌then◌else◌, Bool-cases, length, get_or, length-set, get_or-set_self,
  get_or-set_ne,
}
use mcmp.Status.{success, overflow}
use mcmp.Bitmap.{IsBytes, bit_at, disable_bit}
use mcmp.Bitmap.Laws.{
  bit_at-enable_bit, bit_at-disable_bit, enable_bit-IsBytes, disable_bit-IsBytes, length-enable_bit,
  length-disable_bit, bit_at-le, bit_at-clean_order, length-clean_order, clean_order-IsBytes,
}
use mcmp.Bitmap.Scan.{Scan, found, missing, fault, hung}
use mcmp.Bitmap.Scan.Exact.{IsNextBit, IsStored, next_available_bit-IsNextBit}
use mcmp.Server.Clients.{
  Client, nobody, Broadcast, made, create, Added, refused, added, overrun, crashed, placed, add,
  del,
}

pub record IsValid (broadcast : Broadcast) : Type 0 where
  pub fits : broadcast.fullength < 2 ^ 60
  pub covers : broadcast.bitmap_length ≡ (broadcast.fullength + 7) / 8
  pub all_slots : length broadcast.bitmap ≡ broadcast.bitmap_length
  pub room : broadcast.fullength ≤ length broadcast.clients
  pub bytes : IsBytes broadcast.bitmap

pub stored :
    {broadcast : Broadcast} → IsValid broadcast → IsStored broadcast.bitmap broadcast.bitmap_length
stored ok = record {
  holds_bytes = ok.bytes;
  holds_len = omega (arith, ok.all_slots);
  fits = omega (arith, ok.covers, ok.fits);
}

pub create-IsValid :
    (memory : List Client) (capacity : ℕ)
    → capacity < 2 ^ 60
    → capacity ≤ length memory
    → (broadcast : Broadcast) × (create (some memory) capacity ≡ made broadcast)
      × (broadcast.fullength ≡ capacity)
      × IsValid broadcast
      × ((k : ℕ) → bit_at broadcast.bitmap k ≡ 0)
unfolding create
create-IsValid memory capacity small room =
    let len = size_add capacity 7 / 8 in
    (
      _,
      refl,
      refl,
      record {
        fits = small;
        covers = omega arith;
        all_slots = length-clean_order len;
        room = room;
        bytes = clean_order-IsBytes len;
      },
      bit_at-clean_order len,
    )

-- What an addition promises: the first free slot, marked and filled in with nothing else touched; or
-- OVERFLOW, or a write behind the clients, where every slot is taken.
abbrev pub Adds : Broadcast → Client → Added → Type 0
Adds broadcast client (refused status) =
    (status ≡ overflow) × ((k : ℕ) → k < broadcast.fullength → bit_at broadcast.bitmap k ≡ 1)
Adds broadcast client (added slot after) =
    IsValid after
    × (after.fullength ≡ broadcast.fullength)
    × (slot < broadcast.fullength)
    × (bit_at broadcast.bitmap slot ≡ 0)
    × ((k : ℕ) → k < slot → bit_at broadcast.bitmap k ≡ 1)
    × ((k : ℕ) → bit_at after.bitmap k ≡ (if slot == k then 1 else bit_at broadcast.bitmap k))
    × (get_or after.clients slot nobody ≡ client)
    × ((k : ℕ) → slot ≢ k → get_or after.clients k nobody ≡ get_or broadcast.clients k nobody)
Adds broadcast client overrun =
    (broadcast.fullength % 8 ≢ 0)
    × ((k : ℕ) → k < broadcast.fullength → bit_at broadcast.bitmap k ≡ 1)
Adds broadcast client crashed = ⊥

module _ (broadcast : Broadcast) (client : Client) (ok : IsValid broadcast) where
  open broadcast use {fullength, bitmap_length, bitmap, clients}

  taken : (k : ℕ) → bit_at bitmap k ≢ 0 → bit_at bitmap k ≡ 1
  taken k h = omega (arith, bit_at-le bitmap k, h)

  placed-Adds :
      (r : Scan)
      → IsNextBit 0 bitmap 0 (8 * bitmap_length) r
      → Adds broadcast client (placed broadcast client r)
  placed-Adds (found slot) f = elim (Bool-cases (leb fullength slot)) [
    | inl beyond ↦
        let past : fullength ≤ slot = ground arith in
        rw beyond (
          (λ whole. omega (arith, whole, f.1, ok.covers, past)),
          λ k h. taken k (f.3 k (omega arith) (ground arith)),
        )
    | inr inside ↦
        let below : slot < fullength = ground arith in
        rw inside (
          record {
            fits = ok.fits;
            covers = ok.covers;
            all_slots = omega (arith, length-enable_bit bitmap slot, ok.all_slots);
            room = omega (arith, length-set clients slot client, ok.room);
            bytes = enable_bit-IsBytes bitmap slot ok.bytes;
          },
          refl,
          below,
          f.2,
          (λ k h. taken k (f.3 k (omega arith) h)),
          (λ k. bit_at-enable_bit bitmap slot k (omega (arith, f.1, ok.all_slots))),
          get_or-set_self clients slot client nobody (omega (arith, below, ok.room)),
          (λ k ne. get_or-set_ne clients slot k client nobody ne),
        )
  ]
  placed-Adds missing f = (refl, λ k h. taken k (f k (omega arith) (omega (arith, ok.covers))))
  placed-Adds fault f = f
  placed-Adds hung f = f

  -- `mcmchClientBroadcastAdd` on a valid broadcast copies the client to the first free slot, marks it
  -- and touches nothing else. It reports OVERFLOW only when every slot is taken; when every slot is
  -- taken and the capacity is no multiple of 8, it can also write behind the clients instead.
  add-Adds : Adds broadcast client (add broadcast client)
  unfolding add
  add-Adds = placed-Adds _ (next_available_bit-IsNextBit bitmap 0 bitmap_length (stored ok))

  deleted :
      (client_size base slot : ℕ) (after : Broadcast)
      → 0 < client_size
      → base + slot * client_size < 2 ^ 64
      → ltb (slot / 8) after.bitmap_length ≡ true
      → del client_size base after (base + slot * client_size)
        ≡ some (success, record after { bitmap = disable_bit after.bitmap slot })
  unfolding del
  deleted client_size base slot after size space inside =
      let dif : (base + slot * client_size + (2 ^ 64 - base)) % 2 ^ 64 ≡ slot * client_size =
        omega arith in
      let even : slot * client_size % client_size ≡ 0 = mul-mod_left slot client_size in
      let idx : slot * client_size / client_size ≡ slot = mul-div_cancel slot size in
      rw (dif, even, idx, inside) refl

  -- A client that is added and then deleted, by its address: the deletion succeeds and the slots are
  -- as they were before. The clients lie in the address space.
  pub add-del_roundtrip :
      (client_size base slot : ℕ) (after : Broadcast)
      → 0 < client_size
      → base + slot * client_size < 2 ^ 64
      → add broadcast client ≡ added slot after
      → (last : Broadcast) × (del client_size base after (base + slot * client_size)
          ≡ some (success, last))
        × IsValid last
        × ((k : ℕ) → bit_at last.bitmap k ≡ bit_at bitmap k)
  add-del_roundtrip client_size base slot after size space e =
      let (valid, size_kept, below, free, before, marked, here, others) : Adds broadcast client
          (added slot after) =
        subst (Adds broadcast client) e add-Adds in
      let slot_in : slot < 8 * length after.bitmap =
        omega (arith, valid.covers, valid.all_slots, size_kept, below) in
      let inside : ltb (slot / 8) after.bitmap_length ≡ true =
        ground (arith, valid.covers, size_kept, below) in
      (
        record after { bitmap = disable_bit after.bitmap slot },
        deleted client_size base slot after size space inside,
        record {
          fits = valid.fits;
          covers = valid.covers;
          all_slots = omega (arith, length-disable_bit after.bitmap slot, valid.all_slots);
          room = valid.room;
          bytes = disable_bit-IsBytes after.bitmap slot valid.bytes;
        },
        λ k. elim (ℕ_discrete slot k) [
          | yes same ↦
              rw (← same) (ground (arith, bit_at-disable_bit after.bitmap slot slot slot_in, free))
          | no differ ↦ ground (arith, bit_at-disable_bit after.bitmap slot k slot_in, marked k)
        ],
      )
