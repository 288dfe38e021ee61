-- ===== src/Server/Update.antt =====
-- `mcmchServerUpdate` of server/src/linux/server.c: a receive for each event of epoll, into one buffer
-- that keeps what earlier receives left in it.
pub mod Laws
mod Tests
use mcmp.Common.{ℕ, zero, suc, ◌%◌, ℤ, pos, negsuc, List, [], ◌∷◌, length}
use mcmp.Server.Dispatch.{Outcome, process_dgram}

-- What `recvfrom` does: it fails and returns -1, or it writes the bytes of a datagram at the start of
-- the buffer, cut to the size of it, and stores the address of the sender.
pub data Received : Type 0 where
  failed : Received
  datagram : (bytes : List ℕ) → (from : ℕ) → Received

-- The buffer after `bytes` have been written at its start.
abbrev pub overwrite : List ℕ → List ℕ → List ℕ
overwrite [] buffer = buffer
overwrite (byte ∷ bytes) [] = []
overwrite (byte ∷ bytes) (old ∷ buffer) = byte ∷ overwrite bytes buffer

-- `mcmchServerUpdate`: what comes of each event. `buffer` and `address` are the local variables, which
-- are not initialised at first.
unfoldable pub update : (buffer : List ℕ) (address : ℕ) → List Received → List Outcome
update buffer address [] = []
update buffer address (failed ∷ events) =
    process_dgram buffer address (negsuc 0) ∷ update buffer address events
update buffer address (datagram bytes from ∷ events) =
    let buffer' = overwrite bytes buffer in
    process_dgram buffer' from (pos (length bytes)) ∷ update buffer' from events
