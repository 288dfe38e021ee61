-- ===== src/Server/Heartbeat/Laws.antt =====
-- What the sweep of the clients does.
use mcmp.Common.{
  ℕ, zero, suc, ◌+◌, ◌*◌, ◌≤◌, ◌<◌, ◌≡◌, refl, inl, inr, arith, Bool, false, not, some, List, [],
  ◌∷◌, ltb, leb, ◌==◌, ◌&&◌, if◌then◌else◌, Bool-cases, length, get_or, set,
}
use mcmp.Bitmap.{BitMap, IsBytes, bit_at, enable_bit}
use mcmp.Bitmap.Laws.{bit_at-enable_bit, length-enable_bit, enable_bit-IsBytes}
use mcmp.Bitmap.Scan.Exact.{IsStored}
use mcmp.Bitmap.Walk.{each_bit, walk-each_bit}
use mcmp.Server.Clients.{Client, nobody, Broadcast}
use mcmp.Server.Heartbeat.{Sweep, call_body, call}

abbrev pub alive_at : List Client → ℕ → Bool
alive_at clients k = (get_or clients k nobody).alive

quieted :
    (clients : List Client) (k i : ℕ) (client : Client)
    → client.alive ≡ false
    → alive_at (set clients k client) i ≡ (if k == i then false else alive_at clients i)
quieted [] k i client off = ground arith
quieted (c ∷ clients) zero zero client off = off
quieted (c ∷ clients) zero (suc i) client off = ground arith
quieted (c ∷ clients) (suc k) zero client off = ground arith
quieted (c ∷ clients) (suc k) (suc i) client off = ground (arith, quieted clients k i client off)

module _ (broadcast : Broadcast) where
  open broadcast use {bitmap, bitmap_length}

  abbrev swept : (left k i : ℕ) → Bool
  swept left k i = leb k i && ltb i (left + k) && (bit_at bitmap i == 1)

  abbrev Sweeps : (left k : ℕ) → Sweep → Sweep → Type 0
  Sweeps left k s t =
      (length t.result ≡ length s.result)
      × ((i : ℕ)
          → (bit_at t.result i
              ≡ (if swept left k i && not (alive_at s.clients i) then 1 else bit_at s.result i))
            × (alive_at t.clients i ≡ (if swept left k i then false else alive_at s.clients i)))

  call-each_bit :
      (left k : ℕ) (s : Sweep)
      → left + k ≤ 8 * length s.result
      → Sweeps left k s (each_bit (λ (s : Sweep). bitmap) bitmap_length call_body left k s)
  unfolding each_bit
  call-each_bit zero k s inside = (refl, λ i. (ground arith, ground arith))
  call-each_bit (suc left) k s inside = elim (Bool-cases (bit_at bitmap k == 1)) [
    | inr off ↦
        let later = call-each_bit left (k + 1) s (omega arith) in
        rw off (later.0, λ i. (ground (arith, later.1 i), ground (arith, later.1 i)))
    | inl on ↦ elim (Bool-cases (alive_at s.clients k)) [
      | inl lives ↦
          let client : Client = record (get_or s.clients k nobody) { alive = false } in
          let later =
            call-each_bit left (k + 1) (record s { clients = set s.clients k client })
              (omega arith) in
          rw (on, lives)
            (
              later.0,
              λ i.
                  let quiet = quieted s.clients k i client refl in
                  (ground (arith, later.1 i, quiet), ground (arith, later.1 i, quiet)),
            )
      | inr silent ↦
          let later =
            call-each_bit left (k + 1) (record s { result = enable_bit s.result k })
              (omega (arith, length-enable_bit s.result k)) in
          rw (on, silent)
            (
              omega (arith, later.0, length-enable_bit s.result k),
              λ i.
                  let marked = bit_at-enable_bit s.result k i (omega arith) in
                  (ground (arith, later.1 i, marked), ground (arith, later.1 i, marked)),
            )
    ]
  ]

  each_bit-IsBytes :
      (left k : ℕ) (s : Sweep)
      → IsBytes s.result
      → IsBytes (each_bit (λ (s : Sweep). bitmap) bitmap_length call_body left k s).result
  unfolding each_bit
  each_bit-IsBytes zero k s bytes = bytes
  each_bit-IsBytes (suc left) k s bytes = elim (Bool-cases (bit_at bitmap k == 1)) [
    | inr off ↦ rw off (each_bit-IsBytes left (k + 1) s bytes)
    | inl on ↦ elim (Bool-cases (alive_at s.clients k)) [
      | inl lives ↦ rw (on, lives) (each_bit-IsBytes left (k + 1) _ bytes)
      | inr silent ↦
          rw (on, silent) (each_bit-IsBytes left (k + 1) _ (enable_bit-IsBytes s.result k bytes))
    ]
  ]

  -- `mcmchHeartbeatCall` ends. It marks the slot of each client that has shown no sign of life since the
  -- flag ALIVE was cleared, keeps every other mark, and clears the flag of each client.
  pub call_lem :
      (result : BitMap)
      → IsStored bitmap bitmap_length
      → bitmap_length ≤ length result
      → (s : Sweep) × (call broadcast result ≡ some s)
        × (length s.result ≡ length result)
        × ((i : ℕ)
            → i < 8 * bitmap_length
            → bit_at bitmap i ≡ 1
            → (bit_at s.result i ≡ (if alive_at broadcast.clients i then bit_at result i else 1))
              × (alive_at s.clients i ≡ false))
        × ((i : ℕ) → bit_at bitmap i ≡ 0 → bit_at s.result i ≡ bit_at result i)
        × (IsBytes result → IsBytes s.result)
  unfolding call
  call_lem result ok room =
      let first : Sweep = record { clients = broadcast.clients; result = result } in
      let swept = call-each_bit (8 * bitmap_length) 0 first (omega arith) in
      (
        _,
        walk-each_bit (λ (s : Sweep). bitmap) bitmap_length call_body (λ s. Unit) (λ s u. ok)
            (λ i s h u. elim (Bool-cases (alive_at s.clients i)) [
              | inl lives ↦ rw lives tt
              | inr silent ↦ rw silent tt
            ])
            first tt,
        swept.0,
        (λ i h on. (ground (arith, swept.1 i), ground (arith, swept.1 i))),
        (λ i off. ground (arith, swept.1 i)),
        each_bit-IsBytes (8 * bitmap_length) 0 first,
      )

-- Two sweeps with no sign of life between them: whatever the flags were before the first one, the
-- second one marks every client whose slot is taken.
pub two_calls_lem :
    (broadcast : Broadcast) (result : BitMap)
    → IsStored broadcast.bitmap broadcast.bitmap_length
    → broadcast.bitmap_length ≤ length result
    → (first second : Sweep) × (call broadcast result ≡ some first)
      × (call (record broadcast { clients = first.clients }) first.result ≡ some second)
      × ((i : ℕ)
          → i < 8 * broadcast.bitmap_length
          → bit_at broadcast.bitmap i ≡ 1
          → bit_at second.result i ≡ 1)
two_calls_lem broadcast result ok room =
    let (first, called, long, swept, kept, bytes) = call_lem broadcast result ok room in
    let again : Broadcast = record broadcast { clients = first.clients } in
    let (second, called', long', swept', kept', bytes') =
      call_lem again first.result ok (omega (arith, long, room)) in
    (first, second, called, called', λ i h on. ground (arith, swept i h on, swept' i h on))
