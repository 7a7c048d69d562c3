-- ===== src/RawDebug/RoundTrip.antt =====
-- Packets as text: the commands that the raw debug interface knows, and those that it does not.
use fpga_nes.Prelude.{
  ℕ, ◌*◌, ◌%◌, ◌≡◌, refl, ◌∙◌, true, Option, some, none, List, [], ◌++◌, arith, length, All, ◌==◌,
}
use fpga_nes.Memory.{IsByte, IsU16}
use fpga_nes.Protocol.{Command, IsWellFormed, encode, u16_field}
use fpga_nes.Packet.{DbgPacket}
use fpga_nes.Packet.Wire.{
  packet_of, u16_fields, echo_packet_lem, cpu_mem_wr_packet_lem, cpu_mem_rd_packet_lem,
}
use fpga_nes.RawDebug.{show_bytes, create_obj_from_string, packet_if, packet_from_bytes}
use fpga_nes.RawDebug.Parse.{create_obj-show_bytes}

-- The packet that the raw debug interface makes of a command's bytes.
abbrev pub raw_debug_packet : Command → Option DbgPacket
raw_debug_packet (Command.echo payload) = some (packet_of (Command.echo payload))
raw_debug_packet (Command.cpu_mem_rd addr n) = some (packet_of (Command.cpu_mem_rd addr n))
raw_debug_packet (Command.cpu_mem_wr addr payload) =
    some (packet_of (Command.cpu_mem_wr addr payload))
raw_debug_packet _ = none

IsByte-u16_field :
    (v : ℕ) (rest : List ℕ) → IsU16 v → All IsByte rest → All IsByte (u16_field v rest)
IsByte-u16_field v rest h bytes = (omega arith, (omega arith, bytes))

-- A well-formed command goes over the line as bytes.
pub IsByte-encode : (c : Command) → IsWellFormed c → All IsByte (encode c)
IsByte-encode (Command.echo payload) h =
    (omega arith, IsByte-u16_field (length payload) payload h.0 h.1)
IsByte-encode (Command.cpu_mem_rd addr n) h =
    (omega arith, IsByte-u16_field addr (u16_field n []) h.0 (IsByte-u16_field n [] h.1 tt))
IsByte-encode (Command.cpu_mem_wr addr payload) h = (
  omega arith,
  IsByte-u16_field addr (u16_field (length payload) payload) h.0
      (IsByte-u16_field (length payload) payload h.1 h.2),
)
IsByte-encode Command.dbg_hlt h = (omega arith, tt)
IsByte-encode Command.dbg_run h = (omega arith, tt)
IsByte-encode (Command.cpu_reg_rd reg) h = (omega arith, (h, tt))
IsByte-encode (Command.cpu_reg_wr reg v) h = (omega arith, (h.0, (h.1, tt)))
IsByte-encode Command.query_hlt h = (omega arith, tt)
IsByte-encode (Command.ppu_mem_rd addr n) h =
    (omega arith, IsByte-u16_field addr (u16_field n []) h.0 (IsByte-u16_field n [] h.1 tt))
IsByte-encode (Command.ppu_mem_wr addr payload) h = (
  omega arith,
  IsByte-u16_field addr (u16_field (length payload) payload) h.0
      (IsByte-u16_field (length payload) payload h.1 h.2),
)
IsByte-encode Command.ppu_disable h = (omega arith, tt)
IsByte-encode (Command.cart_set_cfg a b c d e) h =
    (omega arith, (h.0, (h.1, (h.2, (h.3, (h.4, tt))))))

even : (n : ℕ) → (2 * n % 2 == 0) ≡ true
even n = let e : 2 * n % 2 ≡ 0 = omega arith in rw e

packet_from_bytes-encode :
    (garbage : ℕ → ℕ) (extra : List ℕ) (c : Command)
    → packet_from_bytes garbage (encode c ++ extra) ≡ some (raw_debug_packet c)
unfolding packet_from_bytes
packet_from_bytes-encode garbage extra (Command.echo payload) =
    rw (u16_fields (length payload)) (rw (echo_packet_lem garbage payload extra))
packet_from_bytes-encode garbage extra (Command.cpu_mem_rd addr n) =
    rw (u16_fields addr) (rw (u16_fields n) (rw (cpu_mem_rd_packet_lem garbage addr n)))
packet_from_bytes-encode garbage extra (Command.cpu_mem_wr addr payload) =
    rw (u16_fields addr)
      (rw (u16_fields (length payload)) (rw (cpu_mem_wr_packet_lem garbage addr payload extra)))
packet_from_bytes-encode garbage extra _ = refl

-- A well-formed command, its bytes shown the way the interface shows an answer, and parsed: an echo
-- and a CPU memory access give the packet of that command, every other command the null pointer, and
-- no access leaves the buffer.
pub create_obj-show :
    (garbage : ℕ → ℕ) (c : Command)
    → IsWellFormed c
    → create_obj_from_string garbage (show_bytes (encode c)) ≡ some (raw_debug_packet c)
unfolding packet_if
create_obj-show garbage c h =
    let (extra, parsed) = create_obj-show_bytes garbage (encode c) (IsByte-encode c h) in
    parsed ∙ rw (even (length (encode c))) (packet_from_bytes-encode garbage extra c)
