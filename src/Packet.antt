-- ===== src/Packet.antt =====
-- The packet classes of sw/src/dbgpacket.h and sw/src/dbgpacket.cpp. An object is its dynamic class
-- and the buffer `m_pData`; a constructor takes the contents of fresh heap memory, `garbage`, and
-- is `none` where it would access memory outside a buffer. Callers pass arguments that were already
-- converted to USHORT or BYTE, as the constructors' signatures do.
pub mod Wire
pub mod Construct
use fpga_nes.Prelude.{ℕ, ◌+◌, ◌*◌, Option, some, List, get_elem?, ◌>>=◌}
use fpga_nes.Memory.{u8, new_bytes, write_byte, write_u16, read_u16, copy_bytes}
use fpga_nes.Protocol.{
  op_echo, op_cpu_mem_rd, op_cpu_mem_wr, op_dbg_hlt, op_dbg_run, op_cpu_reg_rd, op_cpu_reg_wr,
  op_query_hlt, op_ppu_mem_rd, op_ppu_mem_wr, op_ppu_disable, op_cart_set_cfg,
}

-- The classes that derive from `DbgPacket`.
pub data PacketClass : Type 0 where
  echo cpu_mem_rd cpu_mem_wr dbg_hlt dbg_run cpu_reg_rd cpu_reg_wr : PacketClass
  query_hlt ppu_mem_rd ppu_mem_wr ppu_disable cart_set_cfg : PacketClass

pub record DbgPacket : Type 0 where
  pub class : PacketClass
  pub bytes : List ℕ

-- The enum `CpuReg`; a value of it may be any number that was cast to it.
abbrev pub cpu_reg_pcl : ℕ
cpu_reg_pcl = 0x00

abbrev pub cpu_reg_pch : ℕ
cpu_reg_pch = 0x01

module _ (garbage : ℕ → ℕ) where
  unfoldable pub echo_packet : List ℕ → ℕ → Option DbgPacket
  echo_packet echo_data num_bytes = do
    m ← write_byte (new_bytes garbage (1 + 2 + num_bytes)) 0 op_echo
    m ← copy_bytes num_bytes 0 3 echo_data m
    m ← write_u16 m 1 num_bytes
    some (record { class = echo; bytes = m })

  unfoldable pub cpu_mem_rd_packet : ℕ → ℕ → Option DbgPacket
  cpu_mem_rd_packet addr num_bytes = do
    m ← write_byte (new_bytes garbage (1 + 2 + 2)) 0 op_cpu_mem_rd
    m ← write_u16 m 1 addr
    m ← write_u16 m 3 num_bytes
    some (record { class = cpu_mem_rd; bytes = m })

  unfoldable pub cpu_mem_wr_packet : ℕ → ℕ → List ℕ → Option DbgPacket
  cpu_mem_wr_packet addr num_bytes payload = do
    m ← write_byte (new_bytes garbage (1 + 2 + 2 + num_bytes)) 0 op_cpu_mem_wr
    m ← write_u16 m 1 addr
    m ← write_u16 m 3 num_bytes
    m ← copy_bytes num_bytes 0 5 payload m
    some (record { class = cpu_mem_wr; bytes = m })

  unfoldable pub dbg_hlt_packet : Option DbgPacket
  dbg_hlt_packet = do
    m ← write_byte (new_bytes garbage 1) 0 op_dbg_hlt
    some (record { class = dbg_hlt; bytes = m })

  unfoldable pub dbg_run_packet : Option DbgPacket
  dbg_run_packet = do
    m ← write_byte (new_bytes garbage 1) 0 op_dbg_run
    some (record { class = dbg_run; bytes = m })

  unfoldable pub cpu_reg_rd_packet : ℕ → Option DbgPacket
  cpu_reg_rd_packet reg = do
    m ← write_byte (new_bytes garbage (1 + 1)) 0 op_cpu_reg_rd
    m ← write_byte m 1 (u8 reg)
    some (record { class = cpu_reg_rd; bytes = m })

  unfoldable pub cpu_reg_wr_packet : ℕ → ℕ → Option DbgPacket
  cpu_reg_wr_packet reg val = do
    m ← write_byte (new_bytes garbage (1 + 1 + 1)) 0 op_cpu_reg_wr
    m ← write_byte m 1 (u8 reg)
    m ← write_byte m 2 val
    some (record { class = cpu_reg_wr; bytes = m })

  unfoldable pub query_hlt_packet : Option DbgPacket
  query_hlt_packet = do
    m ← write_byte (new_bytes garbage 1) 0 op_query_hlt
    some (record { class = query_hlt; bytes = m })

  unfoldable pub ppu_mem_rd_packet : ℕ → ℕ → Option DbgPacket
  ppu_mem_rd_packet addr num_bytes = do
    m ← write_byte (new_bytes garbage (1 + 2 + 2)) 0 op_ppu_mem_rd
    m ← write_u16 m 1 addr
    m ← write_u16 m 3 num_bytes
    some (record { class = ppu_mem_rd; bytes = m })

  unfoldable pub ppu_mem_wr_packet : ℕ → ℕ → List ℕ → Option DbgPacket
  ppu_mem_wr_packet addr num_bytes payload = do
    m ← write_byte (new_bytes garbage (1 + 2 + 2 + num_bytes)) 0 op_ppu_mem_wr
    m ← write_u16 m 1 addr
    m ← write_u16 m 3 num_bytes
    m ← copy_bytes num_bytes 0 5 payload m
    some (record { class = ppu_mem_wr; bytes = m })

  unfoldable pub ppu_disable_packet : Option DbgPacket
  ppu_disable_packet = do
    m ← write_byte (new_bytes garbage 1) 0 op_ppu_disable
    some (record { class = ppu_disable; bytes = m })

  unfoldable pub cart_set_cfg_packet : List ℕ → Option DbgPacket
  cart_set_cfg_packet ines_header = do
    m ← write_byte (new_bytes garbage (1 + 5)) 0 op_cart_set_cfg
    b ← get_elem? ines_header 4
    m ← write_byte m 1 b
    b ← get_elem? ines_header 5
    m ← write_byte m 2 b
    b ← get_elem? ines_header 6
    m ← write_byte m 3 b
    b ← get_elem? ines_header 7
    m ← write_byte m 4 b
    b ← get_elem? ines_header 8
    m ← write_byte m 5 b
    some (record { class = cart_set_cfg; bytes = m })

-- The overrides of `SizeInBytes`, on the bytes of the packet.
abbrev echo_size : List ℕ → Option ℕ
echo_size m = do n ← read_u16 m 1; some (1 + 2 + n)

abbrev cpu_mem_rd_size : ℕ
cpu_mem_rd_size = 1 + 2 + 2

abbrev cpu_mem_wr_size : List ℕ → Option ℕ
cpu_mem_wr_size m = do n ← read_u16 m 3; some (1 + 2 + 2 + n)

abbrev dbg_hlt_size : ℕ
dbg_hlt_size = 1

abbrev dbg_run_size : ℕ
dbg_run_size = 1

abbrev cpu_reg_rd_size : ℕ
cpu_reg_rd_size = 1 + 1

abbrev cpu_reg_wr_size : ℕ
cpu_reg_wr_size = 1 + 1 + 1

abbrev query_hlt_size : ℕ
query_hlt_size = 1

abbrev ppu_mem_rd_size : ℕ
ppu_mem_rd_size = 1 + 2 + 2

abbrev ppu_mem_wr_size : List ℕ → Option ℕ
ppu_mem_wr_size m = do n ← read_u16 m 3; some (1 + 2 + 2 + n)

abbrev ppu_disable_size : ℕ
ppu_disable_size = 1

abbrev cart_set_cfg_size : ℕ
cart_set_cfg_size = 1 + 5 * 1

size_of : PacketClass → List ℕ → Option ℕ
size_of echo m = echo_size m
size_of cpu_mem_rd m = some cpu_mem_rd_size
size_of cpu_mem_wr m = cpu_mem_wr_size m
size_of dbg_hlt m = some dbg_hlt_size
size_of dbg_run m = some dbg_run_size
size_of cpu_reg_rd m = some cpu_reg_rd_size
size_of cpu_reg_wr m = some cpu_reg_wr_size
size_of query_hlt m = some query_hlt_size
size_of ppu_mem_rd m = some ppu_mem_rd_size
size_of ppu_mem_wr m = ppu_mem_wr_size m
size_of ppu_disable m = some ppu_disable_size
size_of cart_set_cfg m = some cart_set_cfg_size

-- The virtual method `SizeInBytes`.
unfoldable pub size_in_bytes : DbgPacket → Option ℕ
unfolding size_of
size_in_bytes p = size_of p.class p.bytes

-- The overrides of `ReturnBytesExpected`.
abbrev echo_return_bytes : List ℕ → Option ℕ
echo_return_bytes m = read_u16 m 1

abbrev cpu_mem_rd_return_bytes : List ℕ → Option ℕ
cpu_mem_rd_return_bytes m = read_u16 m 3

abbrev cpu_mem_wr_return_bytes : ℕ
cpu_mem_wr_return_bytes = 0

abbrev dbg_hlt_return_bytes : ℕ
dbg_hlt_return_bytes = 0

abbrev dbg_run_return_bytes : ℕ
dbg_run_return_bytes = 0

abbrev cpu_reg_rd_return_bytes : ℕ
cpu_reg_rd_return_bytes = 1

abbrev cpu_reg_wr_return_bytes : ℕ
cpu_reg_wr_return_bytes = 0

abbrev query_hlt_return_bytes : ℕ
query_hlt_return_bytes = 1

abbrev ppu_mem_rd_return_bytes : List ℕ → Option ℕ
ppu_mem_rd_return_bytes m = read_u16 m 3

abbrev ppu_mem_wr_return_bytes : ℕ
ppu_mem_wr_return_bytes = 0

abbrev ppu_disable_return_bytes : ℕ
ppu_disable_return_bytes = 0

abbrev cart_set_cfg_return_bytes : ℕ
cart_set_cfg_return_bytes = 0

return_bytes_of : PacketClass → List ℕ → Option ℕ
return_bytes_of echo m = echo_return_bytes m
return_bytes_of cpu_mem_rd m = cpu_mem_rd_return_bytes m
return_bytes_of cpu_mem_wr m = some cpu_mem_wr_return_bytes
return_bytes_of dbg_hlt m = some dbg_hlt_return_bytes
return_bytes_of dbg_run m = some dbg_run_return_bytes
return_bytes_of cpu_reg_rd m = some cpu_reg_rd_return_bytes
return_bytes_of cpu_reg_wr m = some cpu_reg_wr_return_bytes
return_bytes_of query_hlt m = some query_hlt_return_bytes
return_bytes_of ppu_mem_rd m = ppu_mem_rd_return_bytes m
return_bytes_of ppu_mem_wr m = some ppu_mem_wr_return_bytes
return_bytes_of ppu_disable m = some ppu_disable_return_bytes
return_bytes_of cart_set_cfg m = some cart_set_cfg_return_bytes

-- The virtual method `ReturnBytesExpected`.
unfoldable pub return_bytes_expected : DbgPacket → Option ℕ
unfolding return_bytes_of
return_bytes_expected p = return_bytes_of p.class p.bytes
