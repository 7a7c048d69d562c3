-- ===== src/Ram.antt =====
-- The memories behind the host interface while it is active: hw/src/cmn/block_ram/block_ram.v,
-- hw/src/cart/cart.v, hw/src/wram.v and hw/src/vram.v, as hw/src/nes_top.v wires them to the bus of the CPU
-- and to that of the PPU. What the registers of the PPU answer is an argument.
pub mod Stores
pub mod Writes
pub mod Reads
pub mod Loaded
pub mod Load
pub mod Words
pub mod RoundTrip
pub mod Clocked
pub mod Blocks
use fpga_nes.Prelude.{
  ℕ, ◌+◌, ◌*◌, ◌/◌, ◌%◌, ◌^◌, Bool, true, false, not, ◌&&◌, List, [], ◌∷◌, bit_or, if◌then◌else◌,
  ◌==◌,
}
use fpga_nes.Link.{Event, cpu_write, ppu_write, reg_write, cart_update, reply}

-- A single port RAM with synchronous read: its words and its address register.
pub record Ram : Type 0 where
  pub ram : ℕ → ℕ
  pub q_addr : ℕ

abbrev pub ram_store : (ℕ → ℕ) → ℕ → ℕ → ℕ → ℕ
ram_store mem addr din i = if i == addr then din else mem i

abbrev pub ram_clock : Bool → ℕ → ℕ → Ram → Ram
ram_clock we addr din r = record {
  ram = if we then ram_store r.ram addr din else r.ram;
  q_addr = addr;
}

abbrev pub dout : Ram → ℕ
dout r = r.ram r.q_addr

-- The wires of one clock: the cartridge configuration, and both buses with their data inputs.
pub record Bus : Type 0 where
  pub cfg : ℕ
  pub cpu_a : ℕ
  pub cpu_r_nw : Bool
  pub cpu_din : ℕ
  pub ppu_a : ℕ
  pub ppu_wr : Bool
  pub ppu_din : ℕ

-- cfg_in[k]
abbrev pub cfg_bit : ℕ → ℕ → Bool
cfg_bit k cfg = cfg / 2 ^ k % 2 == 1

-- The PRG-ROM is enabled by a[15], and WRAM where a[15:13] is 0.
abbrev pub prg_en : Bus → Bool
prg_en w = w.cpu_a / 0x8000 % 2 == 1

abbrev pub wram_en : Bus → Bool
wram_en w = w.cpu_a / 0x2000 % 8 == 0

abbrev pub prgrom_bram_a : ℕ → ℕ → ℕ
prgrom_bram_a cfg a = if cfg_bit 33 cfg then a % 0x8000 else a % 0x4000

-- The pattern tables are enabled, ciram_nce, where chr_a[13] is 0, and VRAM where it is 1.
abbrev pub ciram_nce : Bus → Bool
ciram_nce w = not (w.ppu_a / 0x2000 % 2 == 1)

abbrev pub ciram_a10 : ℕ → ℕ → ℕ
ciram_a10 cfg a = if cfg_bit 16 cfg then a / 0x400 % 2 else a / 0x800 % 2

-- { cart_ciram_a10, ppumc_a[9:0] }
abbrev pub vram_a : ℕ → ℕ → ℕ
vram_a cfg a = ciram_a10 cfg a * 0x400 + a % 0x400

pub record Memories : Type 0 where
  pub prgrom : Ram
  pub chrrom_pat : Ram
  pub wram : Ram
  pub vram : Ram

unfoldable pub memories_clock : Bus → Memories → Memories
memories_clock w m = record {
  prgrom = ram_clock (prg_en w && not w.cpu_r_nw) (prgrom_bram_a w.cfg w.cpu_a) w.cpu_din m.prgrom;
  chrrom_pat = ram_clock (ciram_nce w && w.ppu_wr) (w.ppu_a % 0x2000) w.ppu_din m.chrrom_pat;
  wram = ram_clock (wram_en w && not w.cpu_r_nw) (w.cpu_a % 0x800) w.cpu_din m.wram;
  vram = ram_clock (not (ciram_nce w) && w.ppu_wr) (vram_a w.cfg w.ppu_a) w.ppu_din m.vram;
}

-- cart_prg_dout | wram_dout | ppu_ri_dout, and cart_chr_dout | vram_dout.
unfoldable pub hci_cpu_din : Bus → ℕ → Memories → ℕ
hci_cpu_din w ppu_ri_dout m =
    bit_or (bit_or (if prg_en w then dout m.prgrom else 0) (if wram_en w then dout m.wram else 0))
      ppu_ri_dout

unfoldable pub hci_ppu_vram_din : Bus → Memories → ℕ
hci_ppu_vram_din w m =
    bit_or (if ciram_nce w then dout m.chrrom_pat else 0) (if ciram_nce w then 0 else dout m.vram)

-- The wires in the clock of an event: the interface drives both buses from its address register.
abbrev pub reading : ℕ → ℕ → Bus
reading cfg a = record {
  cfg = cfg;
  cpu_a = a;
  cpu_r_nw = true;
  cpu_din = 0;
  ppu_a = a % 0x4000;
  ppu_wr = false;
  ppu_din = 0;
}

abbrev pub bus_of : ℕ → Event → Bus
bus_of cfg (cpu_write a v) = record (reading cfg a) { cpu_r_nw = false; cpu_din = v }
bus_of cfg (ppu_write a v) = record (reading cfg a) { ppu_wr = true; ppu_din = v }
bus_of cfg _ = reading cfg 0

abbrev pub cfg_of : ℕ → Event → ℕ
cfg_of cfg (cart_update c) = c
cfg_of cfg _ = cfg

-- The cartridge configuration and the memories after the events of a trace.
unfoldable pub after_events : List Event → ℕ → Memories → ℕ × Memories
after_events [] cfg m = (cfg, m)
after_events (e ∷ es) cfg m = after_events es (cfg_of cfg e) (memories_clock (bus_of cfg e) m)

-- What the interface reads at an address that it has held for a clock.
unfoldable pub cpu_read : ℕ → ℕ → ℕ → Memories → ℕ
unfolding hci_cpu_din memories_clock
cpu_read cfg ppu_ri_dout a m =
    hci_cpu_din (reading cfg a) ppu_ri_dout (memories_clock (reading cfg a) m)

unfoldable pub ppu_read : ℕ → ℕ → Memories → ℕ
unfolding hci_ppu_vram_din memories_clock
ppu_read cfg a m = hci_ppu_vram_din (reading cfg a) (memories_clock (reading cfg a) m)
