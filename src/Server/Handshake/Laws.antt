-- ===== src/Server/Handshake/Laws.antt =====
-- What the handshake hashes, and that it never gets there.
use mcmp.Common.{
  ℕ, zero, suc, ◌+◌, ◌*◌, ◌%◌, ◌/◌, ◌^◌, ◌<◌, ◌≡◌, refl, ap, ◌∙◌, arith, Bool, false, not, ◌||◌,
  Option, none, some, List, [], ◌∷◌, ◌++◌, Each, get_or, length, replicate,
}
use mcmp.Server.Dispatch.{Outcome, dropped, accepts, rck, fragment, request, big_endian}
use mcmp.Server.Update.{Received, update}
use mcmp.Server.Update.Laws.{IsBytes, Fits, all_opens, all_accepted, update_lem}
use mcmp.Server.Handshake.{
  Sodium, field, little_endian, refuses, derives, handshake, shakes, Handshake, ack_accept_client,
  outlives, survives,
}

abbrev pub any : List Bool → Bool
any [] = false
any (b ∷ bs) = b || any bs

-- `box_keypair` writes the public key to its first argument.
abbrev pub WritesPublicKey : Sodium → Type 0
WritesPublicKey sodium = sodium.box_keypair none ≡ none

module _ (sodium : Sodium) (writes : WritesPublicKey sodium) where
  outlives-accepts :
      (address : ℕ) (dgram : List ℕ) → outlives sodium (accepts address dgram) ≡ false
  unfolding ack_accept_client handshake
  outlives-accepts address dgram = rw writes refl

  survives-accepted :
      (outcomes : List Outcome) → survives sodium outcomes ≡ not (any (all_accepted outcomes))
  unfolding survives
  survives-accepted [] = refl
  survives-accepted (accepts address dgram ∷ outcomes) = rw (outlives-accepts address dgram) refl
  survives-accepted (dropped ∷ outcomes) = survives-accepted outcomes
  survives-accepted (rck subop ∷ outcomes) = survives-accepted outcomes
  survives-accepted (fragment subop ∷ outcomes) = survives-accepted outcomes
  survives-accepted (request subop ∷ outcomes) = survives-accepted outcomes

  -- As long as no receive fails, the server outlives the datagrams it receives exactly when none of
  -- them opens a connection: one that has the signature, a zero operation and at least 52 bytes brings
  -- it down, whatever key and nonce it has. The buffer holds bytes and is shorter than 2 ^ 32, and the
  -- datagrams fit it.
  pub survives_lem :
      (events : List Received) (buffer : List ℕ) (address : ℕ)
      → length buffer < 2 ^ 32
      → IsBytes buffer
      → Each (Fits (length buffer)) events
      → survives sodium (update buffer address events) ≡ not (any (all_opens events))
  survives_lem events buffer address small old ok =
      survives-accepted (update buffer address events)
      ∙ ap (λ bs. not (any bs)) (update_lem events buffer address small old ok)

-- `up count m` is the sum, by recursion on the first.
abbrev up : (count m : ℕ) → ℕ
up zero m = m
up (suc count) m = up count (suc m)

-- The bytes of the datagram before some others, last byte first.
abbrev pub reversed : List ℕ → (first count : ℕ) → List ℕ → List ℕ
reversed dgram first zero rest = rest
reversed dgram first (suc count) rest =
    reversed dgram (first + 1) count (get_or dgram first 0 ∷ rest)

little_endian-big_endian :
    (dgram : List ℕ)
    → IsBytes dgram
    → (count first high m : ℕ)
    → little_endian (up count m) (big_endian dgram first count high)
      ≡ reversed dgram first count (little_endian m high)
unfolding big_endian little_endian
little_endian-big_endian dgram bytes zero first high m = refl
little_endian-big_endian dgram bytes (suc count) first high m =
    little_endian-big_endian dgram bytes count (first + 1) (high * 256 + get_or dgram first 0)
      (suc m)
    ∙ ap (reversed dgram (first + 1) count) (rw (low, rest) refl)
  where
    low : (high * 256 + get_or dgram first 0) % 256 ≡ get_or dgram first 0
    low = omega (arith, bytes first)

    rest : (high * 256 + get_or dgram first 0) / 256 ≡ high
    rest = omega (arith, bytes first)

abbrev hashed : Sodium → List ℕ → Option (List ℕ) → Handshake
hashed sodium dgram none = refuses
hashed sodium dgram (some shared) =
    derives (sodium.generichash (shared ++ replicate 8 0 ++ reversed dgram 44 8 []))

-- With a place for the public key of the server, the handshake on a datagram of bytes refuses the
-- client's key if libsodium does, and otherwise computes the hash of the product of the keys, eight
-- zero bytes and the nonce of the datagram with its bytes in reverse.
handshake_lem :
    (sodium : Sodium) (pk : Option ℕ) (skey dgram : List ℕ)
    → sodium.box_keypair pk ≡ some skey
    → IsBytes dgram
    → handshake sodium pk dgram ≡ hashed sodium dgram (sodium.scalarmult skey (field dgram 12 32))
unfolding handshake little_endian
handshake_lem sodium pk skey dgram made bytes =
    rw made (by_product (sodium.scalarmult skey (field dgram 12 32)))
  where
    by_product :
        (product : Option (List ℕ)) → shakes sodium dgram product ≡ hashed sodium dgram product
    by_product none = refl
    by_product (some shared) =
        ap (λ nonce. derives (sodium.generichash (shared ++ replicate 8 0 ++ nonce)))
          (little_endian-big_endian dgram bytes 8 44 0 0)
