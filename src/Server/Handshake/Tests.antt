-- ===== src/Server/Handshake/Tests.antt =====
-- A server that gets a datagram without the signature and one that opens a connection.
use mcmp.Common.{
  ℕ, zero, suc, ◌≡◌, refl, arith, not, Option, none, some, List, [], ◌∷◌, replicate, Each,
}
use mcmp.Server.Update.{Received, datagram, update}
use mcmp.Server.Update.Laws.{IsBytes, all_opens, Fits}
use mcmp.Server.Handshake.{Sodium, survives}
use mcmp.Server.Handshake.Laws.{any, survives_lem}

-- A library whose keys are all zero; it refuses the key that is empty.
abbrev product : List ℕ → Option (List ℕ)
product [] = none
product (byte ∷ bytes) = some (byte ∷ bytes)

abbrev keypair : Option ℕ → Option (List ℕ)
keypair none = none
keypair (some address) = some (replicate 32 0)

abbrev sodium : Sodium
sodium = record {
  box_keypair = keypair;
  scalarmult = λ skey pkey. product pkey;
  generichash = λ bytes. bytes;
}

zeros-IsBytes : (n : ℕ) → IsBytes (replicate n 0)
zeros-IsBytes zero i = omega arith
zeros-IsBytes (suc n) zero = omega arith
zeros-IsBytes (suc n) (suc i) = zeros-IsBytes n i

abbrev greeting : List ℕ
greeting = 0x4D ∷ 0x43 ∷ 0x4D ∷ 0x50 ∷ replicate 48 0

greeting-IsBytes : IsBytes greeting
greeting-IsBytes zero = omega arith
greeting-IsBytes (suc zero) = omega arith
greeting-IsBytes (suc (suc zero)) = omega arith
greeting-IsBytes (suc (suc (suc zero))) = omega arith
greeting-IsBytes (suc (suc (suc (suc i)))) = zeros-IsBytes 48 i

abbrev events : List Received
events = datagram (replicate 16 0) 5 ∷ datagram greeting 7 ∷ []

events-Fit : Each (Fits 64) events
events-Fit = ((omega arith, zeros-IsBytes 16), ((omega arith, greeting-IsBytes), tt))

survives_lem_example :
    survives sodium (update (replicate 64 0) 0 events) ≡ not (any (all_opens events))
survives_lem_example =
    survives_lem sodium refl events (replicate 64 0) 0 (omega arith) (zeros-IsBytes 64) events-Fit
