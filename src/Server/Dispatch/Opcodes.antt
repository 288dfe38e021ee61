-- ===== src/Server/Dispatch/Opcodes.antt =====
-- The operations that include/mcmp/protocol.h makes, and what the server takes them for.
use mcmp.Common.{ℕ, ◌+◌, ◌*◌, ◌%◌, ◌^◌, ◌<◌, ◌≡◌, ◌∙◌, arith, false, bit_and, ℤ, List, ◌==◌, get_or}
use mcmp.Bits.{fields-bit_or, bit_and-all, bit_and-low, bit_and-high}
use mcmp.Server.Dispatch.{make_opc, big_endian, dropped, process_dgram}
use mcmp.Server.Dispatch.Laws.{process_dgram_lem}

module _ (opc c : ℕ) (byte : opc < 2 ^ 8) (small : c < 2 ^ 24) where
  fields : make_opc opc c ≡ opc * 2 ^ 24 + c
  unfolding make_opc
  fields =
      let whole : opc * 2 ^ 24 % 2 ^ 32 ≡ opc * 2 ^ 24 = omega arith in
      rw (whole, bit_and-all 24 c small) (fields-bit_or 8 opc byte 24 c small)

  -- The two masks of the server take a code that MCMP_MAKE_OPC has made apart again: the high one
  -- gives the operation, shifted by 24, and the low one its argument. Both fit their fields.
  make_opc_roundtrip :
      (bit_and (make_opc opc c) 0xFF000000 ≡ opc * 2 ^ 24)
      × (bit_and (make_opc opc c) 0x00FFFFFF ≡ c)
  make_opc_roundtrip =
      let all : bit_and opc 255 ≡ opc = bit_and-all 8 opc byte in
      rw fields (
        omega (arith, bit_and-high 8 opc byte 24 255 c small, all),
        bit_and-low 8 opc byte 24 c small,
      )

  -- A datagram whose operation was made by MCMP_MAKE_OPC from any operation but ACK, with any argument,
  -- is dropped, whatever its size, since the server compares the shifted operation with the codes
  -- before the shift.
  made_opc_dropped :
      (dgram : List ℕ) (address : ℕ) (size : ℤ)
      → ((i : ℕ) → get_or dgram i 0 < 256)
      → 0 < opc
      → big_endian dgram 8 4 0 ≡ make_opc opc c
      → process_dgram dgram address size ≡ dropped
  made_opc_dropped dgram address size bytes other e =
      let not_ack : (big_endian dgram 8 4 0 == 0) ≡ false = ground (arith, e, fields) in
      process_dgram_lem dgram address size bytes ∙ rw not_ack (ground arith)
