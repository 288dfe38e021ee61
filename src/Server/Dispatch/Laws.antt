-- ===== src/Server/Dispatch/Laws.antt =====
-- Which datagrams reach a handler.
use mcmp.Common.{
  ℕ, ◌-◌, ◌^◌, ◌<◌, ◌≡◌, ◌≢◌, arith, ◌&&◌, bit_and, ℤ, pos, negsuc, as_size, List, leb, ◌==◌,
  if◌then◌else◌, get_or,
}
use mcmp.Bits.{
  digit, digit-bit_and, digit_ext, digit-zero, digit-le, digit-invert, digit-mask_below, bit_and-lt,
}
use mcmp.Server.Dispatch.{signature_v1, accept_size, big_endian, dropped, accepts, process_dgram}

-- The code of an operation has no bit below 24.
opcode-low : (operation k : ℕ) → k < 24 → digit (bit_and operation 0xFF000000) k ≡ 0
opcode-low operation k h = omega (arith, digit-bit_and operation 0xFF000000 k, mask)
  where
    mask : digit 0xFF000000 k ≡ 0
    mask =
        omega (
          arith,
          digit-invert 32 (2 ^ 24 - 1) k (omega arith) (omega arith),
          digit-mask_below 24 k h,
        )

-- So it is none of 1, 2 and 3.
opcode-ne : (operation c : ℕ) → 0 < c → c < 4 → bit_and operation 0xFF000000 ≢ c
opcode-ne operation c low high e =
    omega (arith, opcode-low operation 0 (omega arith), opcode-low operation 1 (omega arith), e)

-- An operation without bits in either of its parts is 0.
parts-zero :
    (operation : ℕ)
    → operation < 2 ^ 32
    → bit_and operation 0xFF000000 ≡ 0
    → bit_and operation 0x00FFFFFF ≡ 0
    → operation ≡ 0
parts-zero operation h high low = digit_ext 32 operation 0 h (omega arith) λ k q. omega (
  arith,
  digit-bit_and operation 0xFF000000 k,
  digit-bit_and operation 0x00FFFFFF k,
  digit-invert 32 (2 ^ 24 - 1) k (omega arith) q,
  digit-zero k,
  digit-le operation k,
  digit-le 0x00FFFFFF k,
  none 0xFF000000 k high,
  none 0x00FFFFFF k low,
)
  where
    none : (mask k : ℕ) → bit_and operation mask ≡ 0 → digit (bit_and operation mask) k ≡ 0
    none mask k e = rw e (digit-zero k)

-- Four bytes make a number of 32 bits.
big_endian-lt :
    (dgram : List ℕ) → ((i : ℕ) → get_or dgram i 0 < 256) → big_endian dgram 8 4 0 < 2 ^ 32
unfolding big_endian
big_endian-lt dgram bytes = omega (arith, bytes 8, bytes 9, bytes 10, bytes 11)

zero-bit_and : (m : ℕ) → bit_and 0 m ≡ 0
zero-bit_and m =
    digit_ext 32 (bit_and 0 m) 0 (bit_and-lt 32 0 m (omega arith)) (omega arith)
      λ k q. omega (arith, digit-bit_and 0 m k, digit-zero k)

-- `__protected__mcmch_proccess_dgram` calls the handler of accepted connections exactly when the size,
-- as a `size_t`, is at least that of such a datagram, the first eight bytes are the signature, and the
-- four bytes of the operation are zero. It drops every other datagram: no operation reaches the
-- handlers of RCK, FRAGMENT and REQUEST. The buffer holds bytes.
pub process_dgram_lem :
    (dgram : List ℕ) (address : ℕ) (size : ℤ)
    → ((i : ℕ) → get_or dgram i 0 < 256)
    → process_dgram dgram address size ≡ (
        if leb accept_size (as_size size)
          && (big_endian dgram 0 8 0 == signature_v1)
          && (big_endian dgram 8 4 0 == 0)
        then accepts address dgram
        else dropped)
unfolding process_dgram
process_dgram_lem dgram address size bytes =
    let operation = big_endian dgram 8 4 0 in
    ground (
      arith,
      parts-zero operation (big_endian-lt dgram bytes),
      opcode-ne operation 1 (omega arith) (omega arith),
      opcode-ne operation 2 (omega arith) (omega arith),
      opcode-ne operation 3 (omega arith) (omega arith),
      clear operation 0xFF000000,
      clear operation 0x00FFFFFF,
    )
  where
    clear : (operation mask : ℕ) → operation ≡ 0 → bit_and operation mask ≡ 0
    clear operation mask e = rw e (zero-bit_and mask)

-- A receive that fails, with the size -1, is handled as one that has filled the buffer: the comparison
-- with a `sizeof` takes -1 for the largest size.
failed_receive :
    (dgram : List ℕ) (address : ℕ)
    → process_dgram dgram address (negsuc 0) ≡ process_dgram dgram address (pos 1088)
unfolding process_dgram
failed_receive dgram address = ground arith
