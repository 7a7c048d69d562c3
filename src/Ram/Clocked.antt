-- ===== src/Ram/Clocked.antt =====
-- The host interface hw/src/hci/hci.v and the memories of hw/src/nes_top.v on one clock: in every clock the
-- interface drives both buses, reads what the memories show in it, and the memories take the address and
-- the write of it.
use fpga_nes.Prelude.{
  ℕ, zero, suc, ◌/◌, ◌%◌, ◌≤◌, ◌<◌, ◌≡◌, refl, ap, ◌∙◌, Bool, true, false, [], ◌∷◌, arith, bit_or,
  ◌==◌,
}
use fpga_nes.Prelude.Bits.{zero-bit_or, bit_or-zero}
use fpga_nes.Hci.{Regs, Inputs, Outputs, cycle}
use fpga_nes.Link.{Board, Fpga, Wires, quiet, inputs, clock}
use fpga_nes.Ram.{
  Memories, Bus, reading, memories_clock, hci_cpu_din, hci_ppu_vram_din, prgrom_bram_a,
}
use fpga_nes.Ram.Writes.{contents, put, wram_a}
use fpga_nes.Ram.Stores.{stores}
use fpga_nes.Ram.Words.{prg_or_wram, word, first_of, end_of}

pub record Machine : Type 0 where
  pub chip : Fpga
  pub memories : Memories

-- The buses in a clock: both addresses are the address register.
unfoldable pub bus_in : Inputs → Regs → Outputs → Bus
bus_in i q o = record {
  cfg = q.cart_cfg;
  cpu_a = q.addr;
  cpu_r_nw = o.cpu_r_nw;
  cpu_din = o.cpu_dout;
  ppu_a = q.addr % 0x4000;
  ppu_wr = o.ppu_vram_wr;
  ppu_din = i.rd_data;
}

-- The board in a clock: its data inputs are what the memories show. The registers of the PPU answer 0, and
-- those of the CPU as those of `b`.
abbrev pub shown_board : Board → ℕ → Memories → Board
shown_board b cfg m = record b {
  cpu_din = λ trace a. hci_cpu_din (reading cfg a) 0 m;
  ppu_din = λ trace a. hci_ppu_vram_din (reading cfg a) m;
}

module _ (b : Board) where
  abbrev pub bus_now : Wires → Machine → Bus
  bus_now w j =
      let seen = shown_board b j.chip.regs.cart_cfg j.memories in
      let i = inputs seen w j.chip in let r = cycle i j.chip.regs in bus_in i j.chip.regs r.1

  -- One clock of both.
  unfoldable pub machine_clock : Wires → Machine → Machine
  unfolding clock bus_in
  machine_clock w j = record {
    chip = clock (shown_board b j.chip.regs.cart_cfg j.memories) w j.chip;
    memories = memories_clock (bus_now w j) j.memories;
  }

  unfoldable pub run_machine : ℕ → Machine → Machine
  run_machine zero j = j
  run_machine (suc n) j = run_machine n (machine_clock quiet j)

abbrev pub machine : Fpga → Memories → Machine
machine f m = record { chip = f; memories = m }

-- A bus on which nothing is written.
pub quiet_bus-keeps :
    (w : Bus) (m : Memories)
    → w.cpu_r_nw ≡ true
    → w.ppu_wr ≡ false
    → contents (memories_clock w m) ≡ contents m
unfolding memories_clock
quiet_bus-keeps w m r p = ground arith

-- A bus on which the interface writes for the CPU.
pub write_bus :
    (in_prg : Bool) (w : Bus) (m : Memories)
    → w.cpu_r_nw ≡ false
    → w.ppu_wr ≡ false
    → first_of in_prg ≤ w.cpu_a
    → w.cpu_a < end_of in_prg
    → contents (memories_clock w m)
      ≡ put w.cfg (prg_or_wram in_prg) w.cpu_a (w.cpu_din ∷ []) (contents m)
unfolding memories_clock stores
write_bus true w m r p lo hi =
    let on : (w.cpu_a / 0x8000 % 2 == 1) ≡ true = ground arith in
    let off : (w.cpu_a / 0x2000 % 8 == 0) ≡ false = ground arith in
    rw (r, p, on, off) (ground arith)
write_bus false w m r p lo hi =
    let off : (w.cpu_a / 0x8000 % 2 == 1) ≡ false = ground arith in
    let on : (w.cpu_a / 0x2000 % 8 == 0) ≡ true = ground arith in rw (r, p, on, off) (ground arith)

-- The address registers of the PRG-ROM and of WRAM hold an address.
pub record Settled (cfg a : ℕ) (m : Memories) : Type 0 where
  pub at_prg : m.prgrom.q_addr ≡ prgrom_bram_a cfg a
  pub at_wram : m.wram.q_addr ≡ wram_a a

-- They do after a clock with it.
pub bus-Settled : (w : Bus) (m : Memories) → Settled w.cfg w.cpu_a (memories_clock w m)
unfolding memories_clock
bus-Settled w m = record { at_prg = refl; at_wram = refl }

-- Then the bus shows the word at it.
pub hci_cpu_din-word :
    (in_prg : Bool) (cfg a : ℕ) (m : Memories)
    → Settled cfg a m
    → first_of in_prg ≤ a
    → a < end_of in_prg
    → word in_prg cfg (contents m) a < 256
    → hci_cpu_din (reading cfg a) 0 m ≡ word in_prg cfg (contents m) a
unfolding hci_cpu_din
hci_cpu_din-word true cfg a m settled lo hi byte =
    let on : (a / 0x8000 % 2 == 1) ≡ true = ground arith in
    let off : (a / 0x2000 % 8 == 0) ≡ false = ground arith in
    let x : ℕ = m.prgrom.ram (prgrom_bram_a cfg a) in
    rw (on, off, settled.at_prg)
      (ap (λ (y : ℕ). bit_or y 0) (bit_or-zero x byte) ∙ bit_or-zero x byte)
hci_cpu_din-word false cfg a m settled lo hi byte =
    let off : (a / 0x8000 % 2 == 1) ≡ false = ground arith in
    let on : (a / 0x2000 % 8 == 0) ≡ true = ground arith in
    let x : ℕ = m.wram.ram (wram_a a) in
    rw (off, on, settled.at_wram)
      (ap (λ (y : ℕ). bit_or y 0) (zero-bit_or x byte) ∙ bit_or-zero x byte)
