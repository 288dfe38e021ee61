-- ===== src/Server/Handshake.antt =====
-- `__protected__mcmch_ack_accept_client` of server/src/linux/server.c: the handshake with a client whose
-- datagram opens a connection, and what becomes of the server that gets such datagrams.
pub mod Laws
mod Tests
use mcmp.Common.{
  ℕ, zero, suc, ◌+◌, ◌%◌, ◌/◌, Bool, true, false, Option, none, some, List, [], ◌∷◌, ◌++◌, get_or,
  if◌then◌else◌,
}
use mcmp.Server.Dispatch.{Outcome, dropped, accepts, rck, fragment, request, big_endian}

-- The functions of libsodium. A secret key is made and the public one is written to an address, where
-- `none` is NULL; `none` as a result is a write that faults. A product of keys is `none` where the
-- function does not return 0.
pub record Sodium : Type 0 where
  pub box_keypair : (pk : Option ℕ) → Option (List ℕ)
  pub scalarmult : (skey pkey : List ℕ) → Option (List ℕ)
  pub generichash : List ℕ → List ℕ

-- `struct McmchProtoCryptoInfo`
pub record CryptoInfo : Type 0 where
  pub shared : List ℕ
  pub sv_nonce : ℕ
  pub nonce : ℕ

-- The `count` bytes of the datagram from `first` on.
unfoldable pub field : List ℕ → (first count : ℕ) → List ℕ
field dgram first zero = []
field dgram first (suc count) = get_or dgram first 0 ∷ field dgram (first + 1) count

abbrev pub pkey : List ℕ → List ℕ
pkey dgram = field dgram 12 32

-- A number in memory, lowest byte first.
unfoldable pub little_endian : (count : ℕ) → ℕ → List ℕ
little_endian zero n = []
little_endian (suc count) n = (n % 256) ∷ little_endian count (n / 256)

-- `(unsigned char*)&crypto`
abbrev pub crypto_bytes : CryptoInfo → List ℕ
crypto_bytes crypto =
    crypto.shared ++ little_endian 8 crypto.sv_nonce ++ little_endian 8 crypto.nonce

-- How the handshake ends: the server crashes, the public key of the client is refused, or `fkey` has
-- been computed, which nothing uses yet.
pub data Handshake : Type 0 where
  crashes : Handshake
  refuses : Handshake
  derives : (fkey : List ℕ) → Handshake

abbrev pub shakes : Sodium → List ℕ → Option (List ℕ) → Handshake
shakes sodium dgram none = refuses
shakes sodium dgram (some shared) = derives (
    sodium.generichash
      (crypto_bytes (record { shared = shared; sv_nonce = 0; nonce = big_endian dgram 44 8 0 })))

abbrev with_secret : Sodium → List ℕ → Option (List ℕ) → Handshake
with_secret sodium dgram none = crashes
with_secret sodium dgram (some skey) = shakes sodium dgram (sodium.scalarmult skey (pkey dgram))

-- The handshake with the public key written to `pk`.
unfoldable pub handshake : Sodium → (pk : Option ℕ) → List ℕ → Handshake
handshake sodium pk dgram = with_secret sodium dgram (sodium.box_keypair pk)

-- `__protected__mcmch_ack_accept_client`, which passes NULL.
unfoldable pub ack_accept_client : Sodium → (address : ℕ) → (dgram : List ℕ) → Handshake
ack_accept_client sodium address dgram = handshake sodium none dgram

abbrev goes_on : Handshake → Bool
goes_on crashes = false
goes_on _ = true

abbrev outlives : Sodium → Outcome → Bool
outlives sodium (accepts address dgram) = goes_on (ack_accept_client sodium address dgram)
outlives sodium _ = true

-- Whether the server still runs behind what came of some datagrams.
unfoldable pub survives : Sodium → List Outcome → Bool
survives sodium [] = true
survives sodium (outcome ∷ outcomes) =
    if outlives sodium outcome then survives sodium outcomes else false
