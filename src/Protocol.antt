-- ===== src/Protocol.antt =====
-- The debug protocol as an abstract contract between the debugger and the FPGA: a command, the
-- bytes that carry it, and the number of bytes that answer it. It is read off the packet layouts
-- written above each state of hw/src/hci/hci.v and the opcodes of sw/src/dbgpacket.h.
use fpga_nes.Prelude.{ℕ, ◌/◌, ◌%◌, List, [], ◌∷◌, length, All}
use fpga_nes.Memory.{IsByte, IsU16}

-- enum DbgPacketOpCode
abbrev pub op_echo : ℕ
op_echo = 0x00

abbrev pub op_cpu_mem_rd : ℕ
op_cpu_mem_rd = 0x01

abbrev pub op_cpu_mem_wr : ℕ
op_cpu_mem_wr = 0x02

abbrev pub op_dbg_hlt : ℕ
op_dbg_hlt = 0x03

abbrev pub op_dbg_run : ℕ
op_dbg_run = 0x04

abbrev pub op_cpu_reg_rd : ℕ
op_cpu_reg_rd = 0x05

abbrev pub op_cpu_reg_wr : ℕ
op_cpu_reg_wr = 0x06

abbrev pub op_query_hlt : ℕ
op_query_hlt = 0x07

abbrev pub op_query_err_code : ℕ
op_query_err_code = 0x08

abbrev pub op_ppu_mem_rd : ℕ
op_ppu_mem_rd = 0x09

abbrev pub op_ppu_mem_wr : ℕ
op_ppu_mem_wr = 0x0A

abbrev pub op_ppu_disable : ℕ
op_ppu_disable = 0x0B

abbrev pub op_cart_set_cfg : ℕ
op_cart_set_cfg = 0x0C

pub data Command : Type 0 where
  echo : List ℕ → Command
  cpu_mem_rd : ℕ → ℕ → Command
  cpu_mem_wr : ℕ → List ℕ → Command
  dbg_hlt : Command
  dbg_run : Command
  cpu_reg_rd : ℕ → Command
  cpu_reg_wr : ℕ → ℕ → Command
  query_hlt : Command
  ppu_mem_rd : ℕ → ℕ → Command
  ppu_mem_wr : ℕ → List ℕ → Command
  ppu_disable : Command
  cart_set_cfg : ℕ → ℕ → ℕ → ℕ → ℕ → Command

-- The fields fit the widths that the packet gives them.
abbrev pub IsWellFormed : Command → Type 0
IsWellFormed (echo payload) = IsU16 (length payload) × All IsByte payload
IsWellFormed (cpu_mem_rd addr n) = IsU16 addr × IsU16 n
IsWellFormed (cpu_mem_wr addr payload) = IsU16 addr × IsU16 (length payload) × All IsByte payload
IsWellFormed dbg_hlt = Unit {0}
IsWellFormed dbg_run = Unit {0}
IsWellFormed (cpu_reg_rd reg) = IsByte reg
IsWellFormed (cpu_reg_wr reg v) = IsByte reg × IsByte v
IsWellFormed query_hlt = Unit {0}
IsWellFormed (ppu_mem_rd addr n) = IsU16 addr × IsU16 n
IsWellFormed (ppu_mem_wr addr payload) = IsU16 addr × IsU16 (length payload) × All IsByte payload
IsWellFormed ppu_disable = Unit {0}
IsWellFormed (cart_set_cfg a b c d e) = IsByte a × IsByte b × IsByte c × IsByte d × IsByte e

-- A 16-bit field, low byte first, in front of what follows it.
abbrev pub u16_field : ℕ → List ℕ → List ℕ
u16_field v rest = v % 256 ∷ v / 256 ∷ rest

abbrev pub encode : Command → List ℕ
encode (echo payload) = op_echo ∷ u16_field (length payload) payload
encode (cpu_mem_rd addr n) = op_cpu_mem_rd ∷ u16_field addr (u16_field n [])
encode (cpu_mem_wr addr payload) =
    op_cpu_mem_wr ∷ u16_field addr (u16_field (length payload) payload)
encode dbg_hlt = op_dbg_hlt ∷ []
encode dbg_run = op_dbg_run ∷ []
encode (cpu_reg_rd reg) = op_cpu_reg_rd ∷ reg ∷ []
encode (cpu_reg_wr reg v) = op_cpu_reg_wr ∷ reg ∷ v ∷ []
encode query_hlt = op_query_hlt ∷ []
encode (ppu_mem_rd addr n) = op_ppu_mem_rd ∷ u16_field addr (u16_field n [])
encode (ppu_mem_wr addr payload) =
    op_ppu_mem_wr ∷ u16_field addr (u16_field (length payload) payload)
encode ppu_disable = op_ppu_disable ∷ []
encode (cart_set_cfg a b c d e) = op_cart_set_cfg ∷ a ∷ b ∷ c ∷ d ∷ e ∷ []

-- How many bytes the FPGA sends back while it is halted.
abbrev pub reply_length : Command → ℕ
reply_length (echo payload) = length payload
reply_length (cpu_mem_rd addr n) = n
reply_length (cpu_reg_rd reg) = 1
reply_length query_hlt = 1
reply_length (ppu_mem_rd addr n) = n
reply_length _ = 0
