-- ===== src/RawDebug.antt =====
-- The raw debug interface: `DbgPacket::CreateObjFromString` of sw/src/dbgpacket.cpp, and the part of
-- `NesDbg::RawDbgDlgProc` in sw/src/nesdbg.cpp that sends the packet and shows the answer. A text is
-- its character codes.
pub mod Parse
pub mod RoundTrip
pub mod Send
pub mod Dialog
use fpga_nes.Prelude.{
  ℕ, zero, suc, ◌+◌, ◌-◌, ◌*◌, ◌/◌, ◌%◌, Bool, true, false, ◌&&◌, Option, none, some, List, [], ◌∷◌,
  bit_and, bit_or, ltb, leb, ◌==◌, length, get_elem?, drop, if◌then◌else◌, ◌>>=◌,
}
use fpga_nes.Memory.{u8, new_bytes, write_byte, read_u16}
use fpga_nes.Protocol.{op_echo, op_cpu_mem_rd, op_cpu_mem_wr}
use fpga_nes.Packet.{
  DbgPacket, echo_packet, cpu_mem_rd_packet, cpu_mem_wr_packet, return_bytes_expected,
}

-- What one character is to the parser.
pub data Input : Type 0 where
  nibble : ℕ → Input
  space bad : Input

unfoldable pub classify : ℕ → Input
classify input =
    if leb b'0' input && leb input b'9'
    then nibble (input - b'0')
    else if leb b'a' input && leb input b'f'
    then nibble (input - b'a' + 0xa)
    else if leb b'A' input && leb input b'F'
    then nibble (input - b'A' + 0xa)
    else if input == b' '
    then space
    else bad

-- `pRawData[nibbleIdx / 2] = ...`
unfoldable pub put_nibble : List ℕ → ℕ → ℕ → Option (List ℕ)
put_nibble raw nibble_idx n = do
  b ←
      if nibble_idx % 2 == 1
      then (do old ← get_elem? raw (nibble_idx / 2); some (bit_or old n))
      else some (n * 16)
  write_byte raw (nibble_idx / 2) b

-- The loop over the text: `success`, `pRawData` and `nibbleIdx` where it stops.
unfoldable pub read_nibbles : List ℕ → List ℕ → ℕ → Option (Bool × List ℕ × ℕ)
read_nibbles [] raw nibble_idx = some (true, raw, nibble_idx)
read_nibbles (ch ∷ text) raw nibble_idx = elim (classify (u8 ch)) [
  | nibble n ↦ do raw' ← put_nibble raw nibble_idx n; read_nibbles text raw' (nibble_idx + 1)
  | space ↦ read_nibbles text raw nibble_idx
  | bad ↦ some (false, raw, nibble_idx)
]

module _ (garbage : ℕ → ℕ) where
  -- The opcodes that the interface knows; `some none` is the null pointer.
  unfoldable pub packet_from_bytes : List ℕ → Option (Option DbgPacket)
  packet_from_bytes raw = do
    op ← get_elem? raw 0
    if op == op_echo
        then (do n ← read_u16 raw 1; p ← echo_packet garbage (drop 3 raw) n; some (some p))
        else if op == op_cpu_mem_rd
        then (do
          addr ← read_u16 raw 1
          n ← read_u16 raw 3
          p ← cpu_mem_rd_packet garbage addr n
          some (some p))
        else if op == op_cpu_mem_wr
        then (do
          addr ← read_u16 raw 1
          n ← read_u16 raw 3
          p ← cpu_mem_wr_packet garbage addr n (drop 5 raw)
          some (some p))
        else some none

  unfoldable pub packet_if : Bool × List ℕ × ℕ → Option (Option DbgPacket)
  packet_if (success, raw, nibble_idx) =
      if success && nibble_idx % 2 == 0 then packet_from_bytes raw else some none

  -- `none` is undefined behaviour: an access outside the buffer of half the text's length.
  unfoldable pub create_obj_from_string : List ℕ → Option (Option DbgPacket)
  create_obj_from_string text = do
    out ← read_nibbles text (new_bytes garbage (length text / 2)) 0
    packet_if out

-- One digit of the answer.
abbrev pub hex_digit : ℕ → ℕ
hex_digit n = if ltb 9 n then b'A' + (n - 0xA) else b'0' + n

-- The answer as text: two digits and a space for each byte.
unfoldable pub show_bytes : List ℕ → List ℕ
show_bytes [] = []
show_bytes (byte ∷ bytes) =
    hex_digit (byte / 16) ∷ hex_digit (bit_and byte 0xF) ∷ b' ' ∷ show_bytes bytes
