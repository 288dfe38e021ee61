-- ===== src/Server/Update/Tests.antt =====
-- The theorems on the update of the server at concrete datagrams.
use mcmp.Common.{ℕ, zero, suc, ◌<◌, ◌≡◌, refl, arith, true, ◌++◌, List, [], ◌∷◌, get_or, replicate}
use mcmp.Server.Dispatch.{big_endian}
use mcmp.Server.Update.{datagram}
use mcmp.Server.Update.Laws.{IsBytes, opens}

-- A request to open a connection: the signature, and an operation, a key and a nonce of zeros.
abbrev greeting : List ℕ
greeting = (0x4D ∷ 0x43 ∷ 0x4D ∷ 0x50 ∷ []) ++ replicate 48 0

abbrev buffer : List ℕ
buffer = replicate 60 9

nines : (n i : ℕ) → get_or (replicate n 9) i 0 < 256
nines zero i = omega arith
nines (suc n) zero = omega arith
nines (suc n) (suc i) = nines n i

zeros : (n i : ℕ) → get_or (replicate n 0) i 0 < 256
zeros zero i = omega arith
zeros (suc n) zero = omega arith
zeros (suc n) (suc i) = zeros n i

greeting-IsBytes : IsBytes greeting
greeting-IsBytes zero = omega arith
greeting-IsBytes (suc zero) = omega arith
greeting-IsBytes (suc (suc zero)) = omega arith
greeting-IsBytes (suc (suc (suc zero))) = omega arith
greeting-IsBytes (suc (suc (suc (suc i)))) = zeros 48 i

greeting-opens : opens (datagram greeting 7) ≡ true
unfolding big_endian
greeting-opens = refl
