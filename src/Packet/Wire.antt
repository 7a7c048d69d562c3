-- ===== src/Packet/Wire.antt =====
-- The constructors of sw/src/dbgpacket.cpp against the protocol: the bytes of each packet and the sizes
-- that it reports.
use fpga_nes.Prelude.{
  ℕ, suc, ◌+◌, ◌*◌, ◌/◌, ◌%◌, ◌<◌, ◌≡◌, refl, ap, none, some, List, [], ◌∷◌, ◌++◌, append-nil,
  arith, length,
}
use fpga_nes.Memory.{
  u8, new_bytes, copy_bytes, copy_bytes_lem, copy_bytes_overrun, length-new_bytes,
}
use fpga_nes.Protocol.{
  Command, encode, reply_length, op_echo, op_cpu_mem_wr, op_ppu_mem_wr, u16_field,
}
use fpga_nes.Packet.{
  PacketClass, DbgPacket, echo_packet, cpu_mem_rd_packet, cpu_mem_wr_packet, dbg_hlt_packet,
  dbg_run_packet, cpu_reg_rd_packet, cpu_reg_wr_packet, query_hlt_packet, ppu_mem_rd_packet,
  ppu_mem_wr_packet, ppu_disable_packet, cart_set_cfg_packet, size_in_bytes, return_bytes_expected,
}

abbrev pub class_of : Command → PacketClass
class_of (Command.echo payload) = PacketClass.echo
class_of (Command.cpu_mem_rd addr n) = PacketClass.cpu_mem_rd
class_of (Command.cpu_mem_wr addr payload) = PacketClass.cpu_mem_wr
class_of Command.dbg_hlt = PacketClass.dbg_hlt
class_of Command.dbg_run = PacketClass.dbg_run
class_of (Command.cpu_reg_rd reg) = PacketClass.cpu_reg_rd
class_of (Command.cpu_reg_wr reg v) = PacketClass.cpu_reg_wr
class_of Command.query_hlt = PacketClass.query_hlt
class_of (Command.ppu_mem_rd addr n) = PacketClass.ppu_mem_rd
class_of (Command.ppu_mem_wr addr payload) = PacketClass.ppu_mem_wr
class_of Command.ppu_disable = PacketClass.ppu_disable
class_of (Command.cart_set_cfg a b c d e) = PacketClass.cart_set_cfg

-- The packet that carries a command.
abbrev pub packet_of : Command → DbgPacket
packet_of c = record { class = class_of c; bytes = encode c }

-- The memory past the header that a constructor has written, filled from the caller's buffer.
copy_payload :
    (garbage : ℕ → ℕ) (head payload extra : List ℕ)
    → copy_bytes
        (length payload)
        0
        (length head)
        (payload ++ extra)
        (head ++ new_bytes garbage (length payload))
      ≡ some (head ++ payload)
copy_payload garbage head payload extra = simp append-nil at (
    copy_bytes_lem payload [] extra head (new_bytes garbage (length payload)) [] (length head)
      (length-new_bytes garbage (length payload)) (omega arith))

module _ (garbage : ℕ → ℕ) where
  pub echo_packet_lem :
      (payload extra : List ℕ)
      → echo_packet garbage (payload ++ extra) (length payload)
        ≡ some (packet_of (Command.echo payload))
  unfolding echo_packet
  echo_packet_lem payload extra =
      let n = length payload in
      let e : 1 + 2 + n ≡ suc (suc (suc n)) = omega arith in
      rw e (rw (copy_payload garbage (op_echo ∷ garbage (suc n) ∷ garbage n ∷ []) payload extra))

  pub cpu_mem_wr_packet_lem :
      (addr : ℕ) (payload extra : List ℕ)
      → cpu_mem_wr_packet garbage addr (length payload) (payload ++ extra)
        ≡ some (packet_of (Command.cpu_mem_wr addr payload))
  unfolding cpu_mem_wr_packet
  cpu_mem_wr_packet_lem addr payload extra =
      let n = length payload in
      let e : 1 + 2 + 2 + n ≡ suc (suc (suc (suc (suc n)))) = omega arith in
      rw e
        (rw (copy_payload garbage (op_cpu_mem_wr ∷ u16_field addr (u16_field n [])) payload extra))

  pub ppu_mem_wr_packet_lem :
      (addr : ℕ) (payload extra : List ℕ)
      → ppu_mem_wr_packet garbage addr (length payload) (payload ++ extra)
        ≡ some (packet_of (Command.ppu_mem_wr addr payload))
  unfolding ppu_mem_wr_packet
  ppu_mem_wr_packet_lem addr payload extra =
      let n = length payload in
      let e : 1 + 2 + 2 + n ≡ suc (suc (suc (suc (suc n)))) = omega arith in
      rw e
        (rw (copy_payload garbage (op_ppu_mem_wr ∷ u16_field addr (u16_field n [])) payload extra))

  -- A payload shorter than `num_bytes` makes the constructor read past the caller's buffer.
  pub echo_packet_overrun :
      (payload : List ℕ) (n : ℕ) → length payload < n → echo_packet garbage payload n ≡ none
  unfolding echo_packet
  echo_packet_overrun payload n h =
      let e : 1 + 2 + n ≡ suc (suc (suc n)) = omega arith in
      rw e (rw (copy_bytes_overrun n 0 3 payload _ (omega arith) (omega arith)))

  pub cpu_mem_wr_packet_overrun :
      (addr : ℕ) (payload : List ℕ) (n : ℕ)
      → length payload < n
      → cpu_mem_wr_packet garbage addr n payload ≡ none
  unfolding cpu_mem_wr_packet
  cpu_mem_wr_packet_overrun addr payload n h =
      let e : 1 + 2 + 2 + n ≡ suc (suc (suc (suc (suc n)))) = omega arith in
      rw e (rw (copy_bytes_overrun n 0 5 payload _ (omega arith) (omega arith)))

  pub ppu_mem_wr_packet_overrun :
      (addr : ℕ) (payload : List ℕ) (n : ℕ)
      → length payload < n
      → ppu_mem_wr_packet garbage addr n payload ≡ none
  unfolding ppu_mem_wr_packet
  ppu_mem_wr_packet_overrun addr payload n h =
      let e : 1 + 2 + 2 + n ≡ suc (suc (suc (suc (suc n)))) = omega arith in
      rw e (rw (copy_bytes_overrun n 0 5 payload _ (omega arith) (omega arith)))

  pub cpu_mem_rd_packet_lem :
      (addr n : ℕ) → cpu_mem_rd_packet garbage addr n ≡ some (packet_of (Command.cpu_mem_rd addr n))
  unfolding cpu_mem_rd_packet
  cpu_mem_rd_packet_lem addr n = refl

  pub ppu_mem_rd_packet_lem :
      (addr n : ℕ) → ppu_mem_rd_packet garbage addr n ≡ some (packet_of (Command.ppu_mem_rd addr n))
  unfolding ppu_mem_rd_packet
  ppu_mem_rd_packet_lem addr n = refl

  pub dbg_hlt_packet_lem : dbg_hlt_packet garbage ≡ some (packet_of Command.dbg_hlt)
  unfolding dbg_hlt_packet
  dbg_hlt_packet_lem = refl

  pub dbg_run_packet_lem : dbg_run_packet garbage ≡ some (packet_of Command.dbg_run)
  unfolding dbg_run_packet
  dbg_run_packet_lem = refl

  pub query_hlt_packet_lem : query_hlt_packet garbage ≡ some (packet_of Command.query_hlt)
  unfolding query_hlt_packet
  query_hlt_packet_lem = refl

  pub ppu_disable_packet_lem : ppu_disable_packet garbage ≡ some (packet_of Command.ppu_disable)
  unfolding ppu_disable_packet
  ppu_disable_packet_lem = refl

  pub cpu_reg_rd_packet_lem :
      (reg : ℕ) → cpu_reg_rd_packet garbage reg ≡ some (packet_of (Command.cpu_reg_rd (u8 reg)))
  unfolding cpu_reg_rd_packet
  cpu_reg_rd_packet_lem reg = refl

  pub cpu_reg_wr_packet_lem :
      (reg v : ℕ)
      → cpu_reg_wr_packet garbage reg v ≡ some (packet_of (Command.cpu_reg_wr (u8 reg) v))
  unfolding cpu_reg_wr_packet
  cpu_reg_wr_packet_lem reg v = refl

  -- Bytes 4 to 8 of the iNES header, in order.
  pub cart_set_cfg_packet_lem :
      (h0 h1 h2 h3 h4 h5 h6 h7 h8 : ℕ) (rest : List ℕ)
      → cart_set_cfg_packet garbage (h0 ∷ h1 ∷ h2 ∷ h3 ∷ h4 ∷ h5 ∷ h6 ∷ h7 ∷ h8 ∷ rest)
        ≡ some (packet_of (Command.cart_set_cfg h4 h5 h6 h7 h8))
  unfolding cart_set_cfg_packet
  cart_set_cfg_packet_lem h0 h1 h2 h3 h4 h5 h6 h7 h8 rest = refl

pub u16_fields : (v : ℕ) → v % 256 + v / 256 * 256 ≡ v
u16_fields v = omega arith

-- `SizeInBytes` of a packet is the size of its buffer, so sending it reads the whole buffer and
-- nothing past it.
pub size_in_bytes-packet_of : (c : Command) → size_in_bytes (packet_of c) ≡ some (length (encode c))
unfolding size_in_bytes
size_in_bytes-packet_of (Command.echo payload) =
    rw (u16_fields (length payload)) (ap some (omega arith))
size_in_bytes-packet_of (Command.cpu_mem_wr addr payload) =
    rw (u16_fields (length payload)) (ap some (omega arith))
size_in_bytes-packet_of (Command.ppu_mem_wr addr payload) =
    rw (u16_fields (length payload)) (ap some (omega arith))
size_in_bytes-packet_of _ = refl

-- `ReturnBytesExpected` of a packet is the length of the reply that the protocol promises.
pub return_bytes_expected-packet_of :
    (c : Command) → return_bytes_expected (packet_of c) ≡ some (reply_length c)
unfolding return_bytes_expected
return_bytes_expected-packet_of (Command.echo payload) = rw (u16_fields (length payload))
return_bytes_expected-packet_of (Command.cpu_mem_rd addr n) = rw (u16_fields n)
return_bytes_expected-packet_of (Command.ppu_mem_rd addr n) = rw (u16_fields n)
return_bytes_expected-packet_of _ = refl
