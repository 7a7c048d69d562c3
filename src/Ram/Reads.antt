-- ===== src/Ram/Reads.antt =====
-- What the host interface reads of the memories of hw/src/nes_top.v.
use fpga_nes.Prelude.{ℕ, ◌/◌, ◌%◌, ◌≤◌, ◌<◌, ◌≡◌, ap, ◌∙◌, true, false, arith, bit_or, ◌==◌}
use fpga_nes.Prelude.Bits.{bit_or-zero}
use fpga_nes.Ram.{Memories, prgrom_bram_a, cpu_read, ppu_read}
use fpga_nes.Ram.Writes.{pattern_a}

module _ (cfg a : ℕ) (m : Memories) where
  pub cpu_read-prg :
      0x8000 ≤ a
      → a < 0x10000
      → m.prgrom.ram (prgrom_bram_a cfg a) < 256
      → cpu_read cfg 0 a m ≡ m.prgrom.ram (prgrom_bram_a cfg a)
  unfolding cpu_read
  cpu_read-prg lo hi byte =
      let on : (a / 0x8000 % 2 == 1) ≡ true = ground arith in
      let off : (a / 0x2000 % 8 == 0) ≡ false = ground arith in
      let x : ℕ = m.prgrom.ram (prgrom_bram_a cfg a) in
      rw (on, off) (ap (λ (y : ℕ). bit_or y 0) (bit_or-zero x byte) ∙ bit_or-zero x byte)

  pub ppu_read-pattern :
      a < 0x2000
      → m.chrrom_pat.ram (pattern_a a) < 256
      → ppu_read cfg a m ≡ m.chrrom_pat.ram (pattern_a a)
  unfolding ppu_read
  ppu_read-pattern hi byte =
      let off : (a % 0x4000 / 0x2000 % 2 == 1) ≡ false = ground arith in
      let x : ℕ = m.chrrom_pat.ram (pattern_a a) in rw off (bit_or-zero x byte)
