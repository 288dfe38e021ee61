-- ===== src/Server/Clients/Loops.antt =====
-- What the loops over the clients do.
use native.Mathlib.Decide.{ℕ_discrete}
use mcmp.Common.{
  ℕ, zero, suc, ◌+◌, ◌*◌, ◌≤◌, ◌<◌, ◌≡◌, ◌≢◌, refl, sym, ap, ◌∙◌, inl, inr, arith, Option, none,
  some, List, [], ◌∷◌, ◌++◌, ltb, leb, ◌==◌, ◌&&◌, if◌then◌else◌, Bool-cases, get_or,
}
use mathlib.Core.List.{append_assoc, append-nil}
use mcmp.Bitmap.{BitMap, bit_at, disable_bit}
use mcmp.Bitmap.Laws.{bit_at-disable_bit, disable_bit-IsBytes, length-disable_bit, bit_at-le}
use mcmp.Bitmap.Scan.Exact.{IsStored}
use mcmp.Bitmap.Walk.{each_bit, walk-each_bit}
use mcmp.Server.Clients.{nobody, Broadcast, Flushing, flush_body, flush, index_body, get_bit_index}
use mcmp.Server.Clients.Laws.{IsValid, stored}

disabled-IsStored :
    (bitmap : BitMap) (len i : ℕ) → IsStored bitmap len → IsStored (disable_bit bitmap i) len
disabled-IsStored bitmap len i ok = record {
  holds_bytes = disable_bit-IsBytes bitmap i ok.holds_bytes;
  holds_len = omega (arith, length-disable_bit bitmap i, ok.holds_len);
  fits = ok.fits;
}

-- The descriptors of the `left` slots from `k` on that are taken, in order.
unfoldable pub taken_fds : Broadcast → BitMap → (left k : ℕ) → List ℕ
taken_fds broadcast bitmap zero k = []
taken_fds broadcast bitmap (suc left) k =
    let rest = taken_fds broadcast bitmap left (k + 1) in
    if bit_at bitmap k == 1 then (get_or broadcast.clients k nobody).fd ∷ rest else rest

module _ (broadcast : Broadcast) where
  open broadcast use {bitmap_length}

  taken_fds-same :
      (a b : BitMap) (left k : ℕ)
      → ((i : ℕ) → k ≤ i → bit_at a i ≡ bit_at b i)
      → taken_fds broadcast a left k ≡ taken_fds broadcast b left k
  unfolding taken_fds
  taken_fds-same a b zero k same = refl
  taken_fds-same a b (suc left) k same =
      rw (same k (omega arith), taken_fds-same a b left (k + 1) λ i h. same i (omega arith)) refl

  -- The loop of the flush, from slot `k` on.
  abbrev Flushes : (left k : ℕ) → Flushing → Flushing → Type 0
  Flushes left k s t =
      ((i : ℕ) → bit_at t.bitmap i ≡ (if leb k i && ltb i (left + k) then 0 else bit_at s.bitmap i))
      × (t.closed ≡ s.closed ++ taken_fds broadcast s.bitmap left k)

  flush-each_bit :
      (left k : ℕ) (s : Flushing)
      → IsStored s.bitmap bitmap_length
      → left + k ≤ 8 * bitmap_length
      → Flushes left k s (each_bit (λ s. s.bitmap) bitmap_length (flush_body broadcast) left k s)
  unfolding each_bit taken_fds
  flush-each_bit zero k s ok inside = (λ i. ground arith, sym (append-nil s.closed))
  flush-each_bit (suc left) k s ok inside = elim (Bool-cases (bit_at s.bitmap k == 1)) [
    | inl on ↦
        let fd = (get_or broadcast.clients k nobody).fd in
        let next : Flushing = record {
          bitmap = disable_bit s.bitmap k;
          closed = s.closed ++ (fd ∷ []);
        } in
        let off : (i : ℕ)
            → bit_at (disable_bit s.bitmap k) i ≡ (if k == i then 0 else bit_at s.bitmap i) =
          λ i. bit_at-disable_bit s.bitmap k i (omega (arith, ok.holds_len)) in
        let (cleared, closed) =
          flush-each_bit left (k + 1) next (disabled-IsStored s.bitmap bitmap_length k ok)
            (omega arith) in
        let same =
          taken_fds-same (disable_bit s.bitmap k) s.bitmap left (k + 1)
            λ i h. ground (arith, off i) in
        rw on (
          (λ i. ground (arith, cleared i, off i)),
          closed ∙ append_assoc s.closed (fd ∷ []) _ ∙ ap (λ fds. s.closed ++ (fd ∷ fds)) same,
        )
    | inr off ↦
        let (cleared, closed) = flush-each_bit left (k + 1) s ok (omega arith) in
        rw off ((λ i. ground (arith, cleared i, bit_at-le s.bitmap i)), closed)
  ]

  -- `mcmchClientBroadcastFlush` of a valid broadcast ends. It closes the descriptors of the clients in
  -- the slots that are taken, each once and in the order of the slots, and leaves every slot free.
  pub flush_lem :
      IsValid broadcast
      → (last : Flushing) × (flush broadcast ≡ some last)
        × (last.closed ≡ taken_fds broadcast broadcast.bitmap (8 * bitmap_length) 0)
        × ((i : ℕ) → i < 8 * bitmap_length → bit_at last.bitmap i ≡ 0)
  unfolding flush
  flush_lem ok =
      let first : Flushing = record { bitmap = broadcast.bitmap; closed = [] } in
      let (cleared, closed) =
        flush-each_bit (8 * bitmap_length) 0 first (stored ok) (omega arith) in
      (
        _,
        walk-each_bit (λ s. s.bitmap) bitmap_length (flush_body broadcast)
            (λ s. IsStored s.bitmap bitmap_length) (λ s v. v)
            (λ i s h v. disabled-IsStored s.bitmap bitmap_length i v) first (stored ok),
        closed,
        λ i h. ground (arith, cleared i),
      )

  -- The client of a descriptor is in no slot from `lo` on and below `hi` that is taken, or the answer
  -- is the first such slot.
  abbrev Finds : (ctfd lo hi : ℕ) → Option ℕ → Type 0
  Finds ctfd lo hi none =
      (i : ℕ)
      → lo ≤ i
      → i < hi
      → bit_at broadcast.bitmap i ≡ 1
      → (get_or broadcast.clients i nobody).fd ≢ ctfd
  Finds ctfd lo hi (some slot) =
      (lo ≤ slot)
      × (slot < hi)
      × (bit_at broadcast.bitmap slot ≡ 1)
      × ((get_or broadcast.clients slot nobody).fd ≡ ctfd)
      × ((i : ℕ)
          → lo ≤ i
          → i < slot
          → bit_at broadcast.bitmap i ≡ 1
          → (get_or broadcast.clients i nobody).fd ≢ ctfd)

  Finds-before :
      (ctfd lo hi : ℕ) (answer : Option ℕ)
      → (bit_at broadcast.bitmap lo ≡ 1 → (get_or broadcast.clients lo nobody).fd ≢ ctfd)
      → Finds ctfd (lo + 1) hi answer
      → Finds ctfd lo hi answer
  Finds-before ctfd lo hi none other f = λ i a b on. elim (ℕ_discrete lo i) [
    | yes same ↦ rw (← same) (other (rw same on))
    | no differ ↦ f i (omega arith) b on
  ]
  Finds-before ctfd lo hi (some slot) other f = (
    omega (arith, f.0),
    f.1,
    f.2,
    f.3,
    λ i a b on. elim (ℕ_discrete lo i) [
      | yes same ↦ rw (← same) (other (rw same on))
      | no differ ↦ f.4 i (omega arith) b on
    ],
  )

  index-each_bit :
      (ctfd left k : ℕ)
      → Finds ctfd k (left + k) (
          each_bit
            (λ (s : Option ℕ). broadcast.bitmap)
            bitmap_length
            (index_body broadcast ctfd)
            left
            k
            none)
  unfolding each_bit
  index-each_bit ctfd zero k = λ i a b. absurd (omega arith)
  index-each_bit ctfd (suc left) k =
      let rest =
        each_bit (λ (s : Option ℕ). broadcast.bitmap) bitmap_length (index_body broadcast ctfd) left
          (k + 1) none in
      let next : left + (k + 1) ≡ suc left + k = omega arith in
      let later : Finds ctfd (k + 1) (suc left + k) rest =
        rw (sym next) (index-each_bit ctfd left (k + 1)) in
      elim (Bool-cases (bit_at broadcast.bitmap k == 1)) [
        | inr off ↦
            rw off (Finds-before ctfd k (suc left + k) rest (λ on. absurd (ground arith)) later)
        | inl on ↦ elim (Bool-cases ((get_or broadcast.clients k nobody).fd == ctfd)) [
          | inl same ↦
              rw (on, same)
                (
                  omega arith,
                  omega arith,
                  ground arith,
                  ground arith,
                  λ i a b. absurd (omega arith),
                )
          | inr other ↦
              rw (on, other) (Finds-before ctfd k (suc left + k) rest (λ on e. ground arith) later)
        ]
      ]

  -- `mcmchClientGetBitIndex` ends with the first slot that is taken by a client of the descriptor, or
  -- with -1 where there is none.
  get_bit_index_lem :
      (ctfd : ℕ)
      → IsValid broadcast
      → (answer : Option ℕ) × (get_bit_index broadcast ctfd ≡ some answer)
        × Finds ctfd 0 (8 * bitmap_length) answer
  unfolding get_bit_index
  get_bit_index_lem ctfd ok =
      let whole : 8 * bitmap_length + 0 ≡ 8 * bitmap_length = omega arith in
      (
        _,
        walk-each_bit (λ (s : Option ℕ). broadcast.bitmap) bitmap_length (index_body broadcast ctfd)
            (λ s. Unit) (λ s v. stored ok)
            (λ i s h u. elim (Bool-cases ((get_or broadcast.clients i nobody).fd == ctfd)) [
              | inl same ↦ rw same tt
              | inr other ↦ rw other tt
            ])
            none tt,
        rw whole at (index-each_bit ctfd (8 * bitmap_length) 0),
      )
