-- ===== src/Server/Dispatch.antt =====
-- server/src/common/server.c: what the server does with one datagram, by the constants of
-- include/mcmp/protocol.h, which has MCMP_ where server.c says MCH_PROTO_.
pub mod Laws
pub mod Opcodes
mod Tests
use mcmp.Common.{
  ℕ, zero, suc, ◌+◌, ◌*◌, ◌%◌, ◌^◌, Bool, true, false, not, bit_and, bit_or, ℤ, pos, negsuc,
  as_size, List, ltb, ◌==◌, if◌then◌else◌, get_or,
}

-- `MCH_PROTO_HEADER_SIGV1`, and the codes of operations
abbrev pub signature_v1 : ℕ
signature_v1 = 0x4D434D5000000000

abbrev opc_ack : ℕ
opc_ack = 0

abbrev opc_rck : ℕ
opc_rck = 1

abbrev opc_fragment : ℕ
opc_fragment = 2

abbrev opc_request : ℕ
opc_request = 3

abbrev ack_accept_conn : ℕ
ack_accept_conn = 0

-- `MCMP_MAKE_OPC`
unfoldable pub make_opc : (opc c : ℕ) → ℕ
make_opc opc c = bit_or (opc * 2 ^ 24 % 2 ^ 32) (bit_and c 0x00FFFFFF)

-- `sizeof` of McmchProtoBaseDgram and of McmchProtoAcceptConnectionDgram
abbrev base_size : ℕ
base_size = 12

abbrev pub accept_size : ℕ
accept_size = 12 + 32 + 8

-- The big-endian number in `count` bytes of the datagram from `first` on, which is what `memcpy` and
-- `be64toh` or `be32toh` give. `high` is the number so far.
unfoldable pub big_endian : List ℕ → (first count high : ℕ) → ℕ
big_endian dgram first zero high = high
big_endian dgram first (suc count) high =
    big_endian dgram (first + 1) count (high * 256 + get_or dgram first 0)

-- What comes of a datagram: `accepts` is the call of `__protected__mcmch_ack_accept_client`. The
-- handlers of the other operations have empty bodies.
pub data Outcome : Type 0 where
  dropped : Outcome
  accepts : (address : ℕ) → (dgram : List ℕ) → Outcome
  rck fragment request : (subop : ℕ) → Outcome

-- `__priv__mcmch_handle_ack`; the comparison with a `sizeof` converts `size`.
abbrev handle_ack : ℕ → List ℕ → ℕ → ℤ → Outcome
handle_ack subop dgram address size =
    if subop == ack_accept_conn
    then if ltb (as_size size) accept_size then dropped else accepts address dgram
    else dropped

abbrev dispatch : (operation opcode : ℕ) → List ℕ → ℕ → ℤ → Outcome
dispatch operation opcode dgram address size =
    let subop = bit_and operation 0x00FFFFFF in
    if opcode == opc_ack
    then handle_ack subop dgram address size
    else if opcode == opc_rck
    then rck subop
    else if opcode == opc_fragment
    then fragment subop
    else if opcode == opc_request
    then request subop
    else dropped

-- `__protected__mcmch_proccess_dgram`
unfoldable pub process_dgram : List ℕ → ℕ → ℤ → Outcome
process_dgram dgram address size =
    let operation = big_endian dgram 8 4 0 in
    if ltb (as_size size) base_size
    then dropped
    else if not (big_endian dgram 0 8 0 == signature_v1)
    then dropped
    else dispatch operation (bit_and operation 0xFF000000) dgram address size
