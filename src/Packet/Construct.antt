-- ===== src/Packet/Construct.antt =====
-- The packet of each command of the protocol, by the constructors of sw/src/dbgpacket.cpp.
use fpga_nes.Prelude.{ℕ, ◌≡◌, ap, ◌∙◌, Option, some, List, ◌∷◌, ◌++◌, arith, length}
use fpga_nes.Memory.{u8}
use fpga_nes.Protocol.{Command, IsWellFormed, encode, reply_length}
use fpga_nes.Packet.{
  DbgPacket, echo_packet, cpu_mem_rd_packet, cpu_mem_wr_packet, dbg_hlt_packet, dbg_run_packet,
  cpu_reg_rd_packet, cpu_reg_wr_packet, query_hlt_packet, ppu_mem_rd_packet, ppu_mem_wr_packet,
  ppu_disable_packet, cart_set_cfg_packet, size_in_bytes, return_bytes_expected,
}
use fpga_nes.Packet.Wire.{
  packet_of, size_in_bytes-packet_of, return_bytes_expected-packet_of, echo_packet_lem,
  cpu_mem_rd_packet_lem, cpu_mem_wr_packet_lem, dbg_hlt_packet_lem, dbg_run_packet_lem,
  cpu_reg_rd_packet_lem, cpu_reg_wr_packet_lem, query_hlt_packet_lem, ppu_mem_rd_packet_lem,
  ppu_mem_wr_packet_lem, ppu_disable_packet_lem, cart_set_cfg_packet_lem,
}

-- The constructor call that makes the packet of a command. `extra` is whatever lies behind the
-- payload in the caller's buffer; the iNES header starts with its magic number.
abbrev pub construct : (ℕ → ℕ) → List ℕ → Command → Option DbgPacket
construct garbage extra (Command.echo payload) =
    echo_packet garbage (payload ++ extra) (length payload)
construct garbage extra (Command.cpu_mem_rd addr n) = cpu_mem_rd_packet garbage addr n
construct garbage extra (Command.cpu_mem_wr addr payload) =
    cpu_mem_wr_packet garbage addr (length payload) (payload ++ extra)
construct garbage extra Command.dbg_hlt = dbg_hlt_packet garbage
construct garbage extra Command.dbg_run = dbg_run_packet garbage
construct garbage extra (Command.cpu_reg_rd reg) = cpu_reg_rd_packet garbage reg
construct garbage extra (Command.cpu_reg_wr reg v) = cpu_reg_wr_packet garbage reg v
construct garbage extra Command.query_hlt = query_hlt_packet garbage
construct garbage extra (Command.ppu_mem_rd addr n) = ppu_mem_rd_packet garbage addr n
construct garbage extra (Command.ppu_mem_wr addr payload) =
    ppu_mem_wr_packet garbage addr (length payload) (payload ++ extra)
construct garbage extra Command.ppu_disable = ppu_disable_packet garbage
construct garbage extra (Command.cart_set_cfg a b c d e) =
    cart_set_cfg_packet garbage (b'N' ∷ b'E' ∷ b'S' ∷ 0x1A ∷ a ∷ b ∷ c ∷ d ∷ e ∷ extra)

construct-packet_of :
    (garbage : ℕ → ℕ) (extra : List ℕ) (c : Command)
    → IsWellFormed c
    → construct garbage extra c ≡ some (packet_of c)
construct-packet_of garbage extra (Command.echo payload) h = echo_packet_lem garbage payload extra
construct-packet_of garbage extra (Command.cpu_mem_wr addr payload) h =
    cpu_mem_wr_packet_lem garbage addr payload extra
construct-packet_of garbage extra (Command.ppu_mem_wr addr payload) h =
    ppu_mem_wr_packet_lem garbage addr payload extra
construct-packet_of garbage extra (Command.cpu_mem_rd addr n) h =
    cpu_mem_rd_packet_lem garbage addr n
construct-packet_of garbage extra (Command.ppu_mem_rd addr n) h =
    ppu_mem_rd_packet_lem garbage addr n
construct-packet_of garbage extra Command.dbg_hlt h = dbg_hlt_packet_lem garbage
construct-packet_of garbage extra Command.dbg_run h = dbg_run_packet_lem garbage
construct-packet_of garbage extra Command.query_hlt h = query_hlt_packet_lem garbage
construct-packet_of garbage extra Command.ppu_disable h = ppu_disable_packet_lem garbage
construct-packet_of garbage extra (Command.cpu_reg_rd reg) h =
    let e : u8 reg ≡ reg = omega arith in
    cpu_reg_rd_packet_lem garbage reg ∙ ap (λ r. some (packet_of (Command.cpu_reg_rd r))) e
construct-packet_of garbage extra (Command.cpu_reg_wr reg v) h =
    let e : u8 reg ≡ reg = omega (arith, h.0) in
    cpu_reg_wr_packet_lem garbage reg v ∙ ap (λ r. some (packet_of (Command.cpu_reg_wr r v))) e
construct-packet_of garbage extra (Command.cart_set_cfg a b c d e) h =
    cart_set_cfg_packet_lem garbage b'N' b'E' b'S' 0x1A a b c d e extra

-- For each well-formed command the constructor of its class succeeds and builds the bytes that the
-- protocol prescribes, whatever fresh memory held and whatever follows the caller's payload; the
-- packet's `SizeInBytes` is the length of those bytes, so that sending it reads its whole buffer and
-- nothing past it, and its `ReturnBytesExpected` is the length of the reply that the protocol
-- promises.
pub construct_lem :
    (garbage : ℕ → ℕ) (extra : List ℕ) (c : Command)
    → IsWellFormed c
    → (construct garbage extra c ≡ some (packet_of c))
      × (size_in_bytes (packet_of c) ≡ some (length (encode c)))
      × (return_bytes_expected (packet_of c) ≡ some (reply_length c))
construct_lem garbage extra c h = (
  construct-packet_of garbage extra c h,
  size_in_bytes-packet_of c,
  return_bytes_expected-packet_of c,
)
