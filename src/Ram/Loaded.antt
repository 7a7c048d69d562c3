-- ===== src/Ram/Loaded.antt =====
-- The memories of hw/src/nes_top.v after `NesDbg::LoadRom` of sw/src/nesdbg.cpp.
use fpga_nes.Prelude.{
  ℕ, zero, suc, ◌+◌, ◌*◌, ◌/◌, ◌%◌, ◌≤◌, ◌<◌, ◌≡◌, ◌≢◌, sym, ap, ◌∙◌, Bool, true, false, some, List,
  [], ◌∷◌, ◌++◌, arith, All, length, get_elem?, if◌then◌else◌, ◌==◌,
}
use fpga_nes.Memory.{IsByte}
use fpga_nes.Link.{cpu_write, ppu_write, reg_write, cart_update}
use fpga_nes.Link.Clocks.{writes}
use fpga_nes.Link.Effects.{cart_cfg_of}
use fpga_nes.LoadRom.Transfer.{Rom, HasSizes, prg}
use fpga_nes.LoadRom.Outcome.{IsSupported}
use fpga_nes.LoadRom.Loaded.{HasBytes, load_events}
use fpga_nes.Ram.{
  Memories, after_events, memories_clock, cpu_read, ppu_read, prgrom_bram_a, cfg_bit, ciram_a10,
}
use fpga_nes.Ram.Stores.{stores, stores_lem}
use fpga_nes.Ram.Writes.{
  contents, to_prg, to_pattern, put, after_events-append, after_events-writes, pattern_a,
}
use fpga_nes.Ram.Reads.{cpu_read-prg, ppu_read-pattern}

-- The addresses of the PRG-ROM that the configuration tells apart.
abbrev pub window : Bool → ℕ
window big = if big then 0x8000 else 0x4000

abbrev pub fold : Bool → ℕ → ℕ
fold big a = if big then a % 0x8000 else a % 0x4000

pub fold-apart :
    (big : Bool) (n a j k : ℕ)
    → n ≤ window big
    → j < k
    → k < n
    → fold big (a + k) ≢ fold big (a + j)
fold-apart true n a j k few lt h q = omega arith
fold-apart false n a j k few lt h q = omega arith

fold-mirror : (big : Bool) (i : ℕ) → fold big (0x8000 + i % window big) ≡ fold big (0x8000 + i)
fold-mirror true i = omega arith
fold-mirror false i = omega arith

pub All-get_elem? :
    (xs : List ℕ) (i : ℕ) {x : ℕ} → All IsByte xs → get_elem? xs i ≡ some x → IsByte x
All-get_elem? [] i h e = absurd (cc)
All-get_elem? (y ∷ xs) zero (h, hs) e = ground arith
All-get_elem? (y ∷ xs) (suc i) (h, hs) e = All-get_elem? xs i hs e

module _ (r : Rom) (cfg : ℕ) (m : Memories) where
  abbrev pub cart_cfg : ℕ
  cart_cfg = cart_cfg_of r.prg_banks r.chr_banks r.flags6 r.flags7 r.ram_banks

  abbrev pub loaded : ℕ × Memories
  loaded = after_events (load_events r) cfg m

  loaded-contents :
      HasSizes r
      → IsSupported r
      → (loaded.0 ≡ cart_cfg)
        × (contents loaded.1
            ≡ put cart_cfg to_pattern 0 r.chr (put cart_cfg to_prg 0x8000 (prg r) (contents m)))
  unfolding after_events memories_clock
  loaded-contents sizes ok =
      let c = cart_cfg in
      let m1 =
        (after_events (cpu_write 0x2000 0 ∷ cpu_write 0x2001 0 ∷ cart_update c ∷ []) cfg m).1 in
      let start = reg_write 0 r.pcl ∷ reg_write 1 r.pch ∷ [] in
      let prg_block = writes cpu_write 0x8000 (prg r) in
      let chr_block = writes ppu_write 0 r.chr in
      let m2 = (after_events prg_block c m1).1 in
      let m3 = (after_events chr_block c m2).1 in
      let (same, prg_put) =
        after_events-writes c to_prg (prg r) 0x8000 m1 (omega arith)
          (omega (arith, sizes.prg_size, ok.prg_fits)) in
      let (same', chr_put) =
        after_events-writes c to_pattern r.chr 0 m2 (omega arith)
          (omega (arith, sizes.chr_size, ok.chr_fits)) in
      let path : loaded ≡ after_events start c m3 =
        after_events-append prg_block (chr_block ++ start) c m1
        ∙ ap (λ x. after_events (chr_block ++ start) x m2) same
        ∙ after_events-append chr_block start c m2
        ∙ ap (λ x. after_events start x m3) same' in
      (
        ap (λ x. x.0) path,
        ap (λ x. contents x.1) path ∙ chr_put ∙ ap (put c to_pattern 0 r.chr) prg_put,
      )

  module _ (sizes : HasSizes r) (ok : IsSupported r) (bytes : HasBytes r) where
    window-big : 0 < r.prg_banks → r.prg_banks * 0x4000 ≡ window (cfg_bit 33 cart_cfg)
    window-big some_bank = ground (arith, ok.prg_fits, ok.chr_fits, bytes.header_bytes)

    -- The whole of the CPU's addresses from 0x8000 on shows the PRG ROM, one bank twice.
    pub prg_visible :
        (i x : ℕ)
        → 0 < r.prg_banks
        → i < 0x8000
        → get_elem? (prg r) (i % (r.prg_banks * 0x4000)) ≡ some x
        → cpu_read loaded.0 0 (0x8000 + i) loaded.1 ≡ x
    prg_visible i x some_bank lt at =
        let big = cfg_bit 33 cart_cfg in
        let (same, stored) = loaded-contents sizes ok in
        let size = window-big some_bank in
        let at' : get_elem? (prg r) (i % window big) ≡ some x =
          ap (λ (n : ℕ). get_elem? (prg r) (i % n)) (sym size) ∙ at in
        let shown : loaded.1.prgrom.ram (prgrom_bram_a cart_cfg (0x8000 + i)) ≡ x =
          ap (λ c. c.prg (fold big (0x8000 + i))) stored
          ∙ ap (stores (prgrom_bram_a cart_cfg) 0x8000 (prg r) m.prgrom.ram)
              (sym (fold-mirror big i))
          ∙ stores_lem (prgrom_bram_a cart_cfg) (prg r) 0x8000 (i % window big) x m.prgrom.ram
              (λ j k before few.
                fold-apart big (length (prg r)) 0x8000 j k (omega (arith, sizes.prg_size, size))
                  before few)
              at' in
        ap (λ (c : ℕ). cpu_read c 0 (0x8000 + i) loaded.1) same
        ∙ cpu_read-prg cart_cfg (0x8000 + i) loaded.1 (omega arith) (omega arith)
            (omega (arith, shown, All-get_elem? (prg r) (i % window big) bytes.prg_bytes at'))
        ∙ shown

    pub chr_visible :
        (i x : ℕ) → i < 0x2000 → get_elem? r.chr i ≡ some x → ppu_read loaded.0 i loaded.1 ≡ x
    chr_visible i x lt at =
        let (same, stored) = loaded-contents sizes ok in
        let shown : loaded.1.chrrom_pat.ram (pattern_a i) ≡ x =
          ap (λ c. c.pattern (pattern_a i)) stored
          ∙ ap (λ (n : ℕ). stores pattern_a 0 r.chr m.chrrom_pat.ram (pattern_a n)) (omega arith)
          ∙ stores_lem pattern_a r.chr 0 i x m.chrrom_pat.ram
              (λ j k before few q. omega (arith, q, sizes.chr_size, ok.chr_fits)) at in
        ap (λ (c : ℕ). ppu_read c i loaded.1) same
        ∙ ppu_read-pattern cart_cfg i loaded.1 lt
            (omega (arith, shown, All-get_elem? r.chr i bytes.chr_bytes at))
        ∙ shown

    -- The name tables are mirrored as bit 0 of byte 6 of the header says.
    pub mirroring :
        (a : ℕ)
        → ciram_a10 loaded.0 a ≡ (if r.flags6 % 2 == 1 then a / 0x400 % 2 else a / 0x800 % 2)
    mirroring a =
        ap (λ (c : ℕ). ciram_a10 c a) (loaded-contents sizes ok).0
        ∙ ap (λ (b : Bool). if b then a / 0x400 % 2 else a / 0x800 % 2)
            (let bit : cfg_bit 16 cart_cfg ≡ (r.flags6 % 2 == 1) =
                ap (λ (n : ℕ). n == 1) (omega (arith, bytes.header_bytes, ok.chr_fits)) in
              bit)
