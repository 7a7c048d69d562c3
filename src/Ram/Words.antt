-- ===== src/Ram/Words.antt =====
-- The words of the two memories on the bus of the CPU: the PRG-ROM of hw/src/cart/cart.v and WRAM.
use fpga_nes.Prelude.{
  ℕ, ◌+◌, ◌≤◌, ◌<◌, ◌≡◌, Bool, true, false, some, List, arith, length, get_elem?, if◌then◌else◌,
}
use fpga_nes.Ram.{prgrom_bram_a, cfg_bit}
use fpga_nes.Ram.Stores.{stores_lem}
use fpga_nes.Ram.Writes.{Contents, Target, to_prg, to_wram, put, wram_a}
use fpga_nes.Ram.Loaded.{fold-apart}

-- The two memories on the bus of the CPU.
abbrev pub prg_or_wram : Bool → Target
prg_or_wram in_prg = if in_prg then to_prg else to_wram

-- The word at an address, and how many addresses there are until one is folded to another.
abbrev pub word : Bool → ℕ → Contents → ℕ → ℕ
word true cfg c a = c.prg (prgrom_bram_a cfg a)
word false cfg c a = c.wram (wram_a a)

abbrev pub room : Bool → ℕ → ℕ
room true cfg = if cfg_bit 33 cfg then 0x8000 else 0x4000
room false cfg = 0x800

abbrev pub first_of : Bool → ℕ
first_of in_prg = if in_prg then 0x8000 else 0

abbrev pub end_of : Bool → ℕ
end_of in_prg = if in_prg then 0x10000 else 0x2000

pub written_word :
    (in_prg : Bool) (cfg : ℕ) (p : List ℕ) (a i x : ℕ) (c : Contents)
    → first_of in_prg ≤ a
    → a + length p ≤ end_of in_prg
    → length p ≤ room in_prg cfg
    → get_elem? p i ≡ some x
    → word in_prg cfg (put cfg (prg_or_wram in_prg) a p c) (a + i) ≡ x
written_word true cfg p a i x c lo hi few at =
    stores_lem (prgrom_bram_a cfg) p a i x c.prg
      (λ j k before lt. fold-apart (cfg_bit 33 cfg) (length p) a j k few before lt) at
written_word false cfg p a i x c lo hi few at =
    stores_lem wram_a p a i x c.wram (λ j k before lt q. omega (arith, q)) at

pub end_of-le : (in_prg : Bool) → end_of in_prg ≤ 0x10000
end_of-le true = omega arith
end_of-le false = omega arith

pub block_short :
    (in_prg : Bool) (a n : ℕ) → first_of in_prg ≤ a → a + n ≤ end_of in_prg → n < 0x10000
block_short true a n lo hi = omega arith
block_short false a n lo hi = omega arith
