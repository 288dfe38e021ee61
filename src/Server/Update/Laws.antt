-- ===== src/Server/Update/Laws.antt =====
-- Which of the received datagrams open a connection.
use mcmp.Common.{
  ℕ, zero, suc, ◌+◌, ◌^◌, ◌≤◌, ◌<◌, ◌≡◌, refl, sym, ap, ◌∙◌, inl, inr, arith, Bool, true, false,
  ◌&&◌, ℤ, pos, negsuc, as_size, List, [], ◌∷◌, Each, leb, ltb, ◌==◌, if◌then◌else◌, Bool-cases,
  length, get_or,
}
use mcmp.Server.Dispatch.{
  signature_v1, accept_size, big_endian, Outcome, dropped, accepts, process_dgram,
}
use mcmp.Server.Dispatch.Laws.{process_dgram_lem}
use mcmp.Server.Update.{Received, failed, datagram, overwrite, update}

abbrev pub IsBytes : List ℕ → Type 0
IsBytes bytes = (i : ℕ) → get_or bytes i 0 < 256

length-overwrite : (bytes buffer : List ℕ) → length (overwrite bytes buffer) ≡ length buffer
length-overwrite [] buffer = refl
length-overwrite (byte ∷ bytes) [] = refl
length-overwrite (byte ∷ bytes) (old ∷ buffer) = ap suc (length-overwrite bytes buffer)

get_or-overwrite :
    (bytes buffer : List ℕ) (i : ℕ)
    → length bytes ≤ length buffer
    → get_or (overwrite bytes buffer) i 0
      ≡ (if ltb i (length bytes) then get_or bytes i 0 else get_or buffer i 0)
get_or-overwrite [] buffer i h = ground arith
get_or-overwrite (byte ∷ bytes) [] i h = absurd (omega arith)
get_or-overwrite (byte ∷ bytes) (old ∷ buffer) zero h = ground arith
get_or-overwrite (byte ∷ bytes) (old ∷ buffer) (suc i) h =
    get_or-overwrite bytes buffer i (omega arith) ∙ ground arith

overwrite-IsBytes :
    (bytes buffer : List ℕ)
    → length bytes ≤ length buffer
    → IsBytes bytes
    → IsBytes buffer
    → IsBytes (overwrite bytes buffer)
overwrite-IsBytes bytes buffer h new old i =
    rw (get_or-overwrite bytes buffer i h) (ground (arith, new i, old i))

big_endian-agree :
    (a b : List ℕ) (first count high : ℕ)
    → ((i : ℕ) → i < first + count → get_or a i 0 ≡ get_or b i 0)
    → big_endian a first count high ≡ big_endian b first count high
unfolding big_endian
big_endian-agree a b first zero high same = refl
big_endian-agree a b first (suc count) high same =
    rw (same first (omega arith))
      (big_endian-agree a b (first + 1) count _ (λ i h. same i (omega arith)))

-- A datagram opens a connection by its own bytes.
abbrev pub opens : Received → Bool
opens failed = false
opens (datagram bytes from) =
    leb accept_size (length bytes)
    && (big_endian bytes 0 8 0 == signature_v1)
    && (big_endian bytes 8 4 0 == 0)

abbrev pub all_opens : List Received → List Bool
all_opens [] = []
all_opens (event ∷ events) = opens event ∷ all_opens events

abbrev is_accepted : Outcome → Bool
is_accepted (accepts address dgram) = true
is_accepted _ = false

abbrev pub all_accepted : List Outcome → List Bool
all_accepted [] = []
all_accepted (outcome ∷ outcomes) = is_accepted outcome ∷ all_accepted outcomes

-- A receive that succeeds: bytes that the buffer has room for.
abbrev pub Fits : ℕ → Received → Type 0
Fits capacity failed = ⊥
Fits capacity (datagram bytes from) = (length bytes ≤ capacity) × IsBytes bytes

accepted-if :
    (c : Bool) (address : ℕ) (dgram : List ℕ)
    → is_accepted (if c then accepts address dgram else dropped) ≡ c
accepted-if true address dgram = refl
accepted-if false address dgram = refl

module _ (buffer bytes : List ℕ) (from : ℕ) (small : length buffer < 2 ^ 32) (old : IsBytes buffer)
    (fits : Fits (length buffer) (datagram bytes from)) where
  abbrev after : List ℕ
  after = overwrite bytes buffer

  prefix :
      leb accept_size (length bytes) ≡ true
      → (first count : ℕ) → first + count ≤ accept_size
      → big_endian after first count 0 ≡ big_endian bytes first count 0
  prefix long first count inside =
      big_endian-agree after bytes first count 0
        λ i h. get_or-overwrite bytes buffer i fits.0 ∙ ground arith

  -- A size that is long enough just where the datagram is.
  decided :
      (size : ℤ)
      → leb accept_size (as_size size) ≡ leb accept_size (length bytes)
      → process_dgram after from size
        ≡ (if opens (datagram bytes from) then accepts from after else dropped)
  decided size alike =
      process_dgram_lem after from size (overwrite-IsBytes bytes buffer fits.0 fits.1 old)
      ∙ elim (Bool-cases (leb accept_size (length bytes))) [
        | inl long ↦
            rw (alike, long, prefix long 0 8 (omega arith), prefix long 8 4 (omega arith)) refl
        | inr short ↦ rw (alike, short) refl
      ]

  received : as_size (pos (length bytes)) ≡ length bytes
  received = omega (arith, fits.0)

  one-accepted :
      is_accepted (process_dgram after from (pos (length bytes))) ≡ opens (datagram bytes from)
  one-accepted =
      ap is_accepted (decided (pos (length bytes)) (ap (leb accept_size) received))
      ∙ accepted-if (opens (datagram bytes from)) from after

  replayed :
      opens (datagram bytes from) ≡ true
      → (process_dgram after from (pos (length bytes)) ≡ accepts from after)
        × (process_dgram after from (negsuc 0) ≡ accepts from after)
  replayed yes_opens =
      let long : leb accept_size (length bytes) ≡ true = ground arith in
      (
        decided (pos (length bytes)) (ap (leb accept_size) received) ∙ rw yes_opens refl,
        decided (negsuc 0) (sym long) ∙ rw yes_opens refl,
      )

-- As long as no receive fails, each datagram opens a connection exactly when its own bytes are at
-- least the 52 of such a datagram with the signature and a zero operation: what earlier datagrams or
-- an uninitialised buffer hold has no say. The buffer holds bytes and is shorter than 2 ^ 32, and the
-- datagrams fit it.
pub update_lem :
    (events : List Received) (buffer : List ℕ) (address : ℕ)
    → length buffer < 2 ^ 32
    → IsBytes buffer
    → Each (Fits (length buffer)) events
    → all_accepted (update buffer address events) ≡ all_opens events
unfolding update
update_lem [] buffer address small old ok = refl
update_lem (failed ∷ events) buffer address small old ok = absurd ok.0
update_lem (datagram bytes from ∷ events) buffer address small old ok =
    let after = overwrite bytes buffer in
    let same_length = length-overwrite bytes buffer in
    let rest =
      update_lem events after from (rw same_length small)
        (overwrite-IsBytes bytes buffer ok.0.0 ok.0.1 old) (rw same_length ok.1) in
    rw (one-accepted buffer bytes from small old ok.0, rest) refl

-- A failed receive right after a datagram that opens a connection handles that datagram once more: the
-- handler of accepted connections is called twice with the same address and the same buffer. The
-- buffer holds bytes and is shorter than 2 ^ 32, and the datagram fits it.
pub update_replays :
    (buffer bytes : List ℕ) (address from : ℕ) (events : List Received)
    → length buffer < 2 ^ 32
    → IsBytes buffer
    → Fits (length buffer) (datagram bytes from)
    → opens (datagram bytes from) ≡ true
    → update buffer address (datagram bytes from ∷ failed ∷ events)
      ≡ accepts from (overwrite bytes buffer)
        ∷ accepts from (overwrite bytes buffer)
        ∷ update (overwrite bytes buffer) from events
unfolding update
update_replays buffer bytes address from events small old fits yes_opens =
    let (first, second) = replayed buffer bytes from small old fits yes_opens in
    rw (first, second) refl
