-- ===== src/LoadRom.antt =====
-- `NesDbg::LoadRom` of sw/src/nesdbg.cpp. What Windows answers is the argument: whether a file was
-- chosen, opened and read, and the contents of the 1 MB buffer after the read, of which the part
-- past the file is whatever it held before (the code never looks at the number of bytes read). The
-- dialog is left out but for the values that the progress bar is computed from.
pub mod Blocks
pub mod Transfer
pub mod Outcome
pub mod Header
pub mod Memory
pub mod Sent
pub mod Loaded
pub mod Stalled
use fpga_nes.Prelude.{
  ℕ, zero, suc, ◌+◌, ◌-◌, ◌*◌, ◌/◌, ◌^◌, Bool, true, false, not, ◌&&◌, ◌||◌, Option, List, bit_and,
  bit_or, ltb, ◌==◌, get_elem?, drop, if◌then◌else◌,
}
use fpga_nes.Memory.{u16}
use fpga_nes.Packet.{
  DbgPacket, dbg_hlt_packet, dbg_run_packet, ppu_disable_packet, cart_set_cfg_packet,
  cpu_mem_wr_packet, ppu_mem_wr_packet, cpu_reg_wr_packet, cpu_reg_pcl, cpu_reg_pch,
}
use fpga_nes.Host.{
  Host, pure, ◌>>=◌, ◌>>◌, lift, tell, tell_if, send_packet, message, progress, close_file,
  open_failed, read_failed, invalid_header, too_many_banks, bad_mirroring, bad_mapper,
}

pub record RomFile : Type 0 where
  pub chosen : Bool
  pub opened : Bool
  pub read_ok : Bool
  pub buffer : List ℕ

abbrev pub transfer_block_size : ℕ
transfer_block_size = 0x400

-- The tests of the iNES header.
abbrev pub bad_magic : ℕ → ℕ → ℕ → ℕ → Bool
bad_magic h0 h1 h2 h3 = not (h0 == b'N') || not (h1 == b'E') || not (h2 == b'S') || not (h3 == 0x1A)

abbrev pub too_large : ℕ → ℕ → Bool
too_large prg_rom_banks chr_rom_banks = ltb 2 prg_rom_banks || ltb 1 chr_rom_banks

abbrev pub four_screen : ℕ → Bool
four_screen flags6 = not (bit_and flags6 0x08 == 0)

abbrev pub has_mapper : ℕ → ℕ → Bool
has_mapper flags6 flags7 = not (bit_or (bit_and flags6 0xF0 / 2 ^ 4) (bit_and flags7 0xF0) == 0)

-- Every failed test shows its message; the bank counts are read whatever the outcome.
pub check_header : List ℕ → Host (Bool × ℕ × ℕ)
check_header file_data = do
  h0 ← lift (get_elem? file_data 0)
  h1 ← lift (get_elem? file_data 1)
  h2 ← lift (get_elem? file_data 2)
  h3 ← lift (get_elem? file_data 3)
  prg_rom_banks ← lift (get_elem? file_data 4)
  chr_rom_banks ← lift (get_elem? file_data 5)
  flags6 ← lift (get_elem? file_data 6)
  flags7 ← lift (get_elem? file_data 7)
  tell_if (bad_magic h0 h1 h2 h3) (message invalid_header)
  tell_if (too_large prg_rom_banks chr_rom_banks) (message too_many_banks)
  tell_if (four_screen flags6) (message bad_mirroring)
  tell_if (has_mapper flags6 flags7) (message bad_mapper)
  pure (
    not (bad_magic h0 h1 h2 h3)
        && not (too_large prg_rom_banks chr_rom_banks)
        && not (four_screen flags6)
        && not (has_mapper flags6 flags7),
    prg_rom_banks,
    chr_rom_banks,
  )

-- The loop that copies a ROM, from block `i` on: of the PRG ROM by `CpuMemWrPacket` to 0x8000, from
-- byte 16 of the file, and of the CHR ROM by `PpuMemWrPacket` to 0, from behind the PRG ROM. It
-- returns `transferredBytes`.
module _ (make : ℕ → ℕ → List ℕ → Option DbgPacket) (base_addr base_offset : ℕ) (file_data : List ℕ)
    (block total_bytes : ℕ) where
  pub send_blocks : ℕ → ℕ → ℕ → Host ℕ
  send_blocks zero i transferred = pure transferred
  send_blocks (suc rounds) i transferred = do
    let rom_offset = block * i
    p ← lift (make (u16 (base_addr + rom_offset)) block (drop (base_offset + rom_offset) file_data))
    send_packet p
    tell (progress (transferred + block) total_bytes)
    send_blocks rounds (i + 1) (transferred + block)

module _ (garbage : ℕ → ℕ) (file_data : List ℕ) where
  -- Both loops.
  pub send_roms : ℕ → ℕ → Host ℕ
  send_roms prg_rom_data_size chr_rom_data_size = do
    let total_bytes = prg_rom_data_size + chr_rom_data_size
    let block = transfer_block_size
    sent ←
        send_blocks (cpu_mem_wr_packet garbage) 0x8000 16 file_data block total_bytes
          (prg_rom_data_size / block) 0 0
    send_blocks (ppu_mem_wr_packet garbage) 0 (16 + prg_rom_data_size) file_data block total_bytes
        (chr_rom_data_size / block) 0 sent

  -- The program counter is set from the reset vector, and the machine runs.
  pub start_rom : ℕ → Host (Unit {0})
  start_rom prg_rom_data_size = do
    pcl_val ← lift (get_elem? file_data (16 + prg_rom_data_size - 4))
    pch_val ← lift (get_elem? file_data (16 + prg_rom_data_size - 3))
    p ← lift (cpu_reg_wr_packet garbage cpu_reg_pcl pcl_val)
    send_packet p
    p ← lift (cpu_reg_wr_packet garbage cpu_reg_pch pch_val)
    send_packet p
    p ← lift (dbg_run_packet garbage)
    send_packet p

  -- The transfer, once the header has passed the tests.
  pub transfer : ℕ → ℕ → Host (Unit {0})
  transfer prg_rom_banks chr_rom_banks = do
    p ← lift (dbg_hlt_packet garbage)
    send_packet p
    p ← lift (ppu_disable_packet garbage)
    send_packet p
    p ← lift (cart_set_cfg_packet garbage file_data)
    send_packet p
    _ ← send_roms (prg_rom_banks * 0x4000) (chr_rom_banks * 0x2000)
    start_rom (prg_rom_banks * 0x4000)

module _ (garbage : ℕ → ℕ) where
  -- What follows the tests of the header.
  pub load_tested : List ℕ → Bool × ℕ × ℕ → Host (Unit {0})
  load_tested file_data (success, prg_rom_banks, chr_rom_banks) =
      if success then transfer garbage file_data prg_rom_banks chr_rom_banks else pure tt

  -- What follows the reading of the file.
  pub load_file_data : Bool → List ℕ → Host (Unit {0})
  load_file_data false file_data = tell (message read_failed)
  load_file_data true file_data = do tested ← check_header file_data; load_tested file_data tested

  unfoldable pub load_rom : RomFile → Host (Unit {0})
  unfolding load_file_data
  load_rom f =
      if not f.chosen
      then pure tt
      else if not f.opened
      then tell (message open_failed)
      else (do load_file_data f.read_ok f.buffer; tell close_file)
