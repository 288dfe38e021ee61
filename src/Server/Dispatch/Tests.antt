-- ===== src/Server/Dispatch/Tests.antt =====
-- The theorems on dispatch at concrete datagrams.
use mcmp.Common.{
  ℕ, zero, suc, ◌<◌, Bool, true, ltb, ◌≡◌, refl, arith, ◌&&◌, ◌++◌, pos, as_size, List, [], ◌∷◌,
  leb, ◌==◌, if◌then◌else◌, get_or, replicate,
}
use mcmp.Server.Dispatch.{
  accept_size, big_endian, signature_v1, make_opc, accepts, dropped, process_dgram,
}
use mcmp.Server.Dispatch.Laws.{process_dgram_lem}

-- The signature, an operation, and a key and a nonce of zeros.
abbrev greeting : List ℕ → List ℕ
greeting operation = (0x4D ∷ 0x43 ∷ 0x4D ∷ 0x50 ∷ 0 ∷ 0 ∷ 0 ∷ 0 ∷ []) ++ operation ++ replicate 40 0

each_byte : (n : ℕ) (i : ℕ) → get_or (replicate n 0) i 0 < 256
each_byte zero i = omega arith
each_byte (suc n) zero = omega arith
each_byte (suc n) (suc i) = each_byte n i

abbrev accepting : List ℕ
accepting = replicate 52 0

outcomes :
    (process_dgram (greeting (0 ∷ 0 ∷ 0 ∷ 0 ∷ [])) 7 (pos 52)
      ≡ accepts 7 (greeting (0 ∷ 0 ∷ 0 ∷ 0 ∷ [])))
    × (process_dgram (greeting (3 ∷ 0 ∷ 0 ∷ 0 ∷ [])) 7 (pos 52) ≡ dropped)
    × (process_dgram (greeting (0 ∷ 0 ∷ 0 ∷ 0 ∷ [])) 7 (pos 51) ≡ dropped)
unfolding process_dgram big_endian
outcomes = (refl, refl, refl)

process_dgram_lem_example : process_dgram accepting 7 (pos 52) ≡ (
    if leb accept_size (as_size (pos 52))
      && (big_endian accepting 0 8 0 == signature_v1)
      && (big_endian accepting 8 4 0 == 0)
    then accepts 7 accepting
    else dropped)
process_dgram_lem_example = process_dgram_lem accepting 7 (pos 52) (each_byte 52)

abbrev all_bytes : List ℕ → Bool
all_bytes [] = true
all_bytes (byte ∷ bytes) = ltb byte 256 && all_bytes bytes

get_lt : (bytes : List ℕ) → all_bytes bytes ≡ true → (i : ℕ) → get_or bytes i 0 < 256
get_lt [] all i = omega arith
get_lt (byte ∷ bytes) all zero = ground arith
get_lt (byte ∷ bytes) all (suc i) = get_lt bytes (ground arith) i

-- The signature and a request with the argument 7.
abbrev asking : List ℕ
asking = 0x4D ∷ 0x43 ∷ 0x4D ∷ 0x50 ∷ 0 ∷ 0 ∷ 0 ∷ 0 ∷ 3 ∷ 0 ∷ 0 ∷ 7 ∷ []

asking_opc : big_endian asking 8 4 0 ≡ make_opc 3 7
unfolding big_endian make_opc
asking_opc = refl
