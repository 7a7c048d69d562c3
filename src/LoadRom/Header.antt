-- ===== src/LoadRom/Header.antt =====
-- The tests of the iNES header in `NesDbg::LoadRom` of sw/src/nesdbg.cpp, against what the header says.
use fpga_nes.Prelude.{
  ℕ, ◌+◌, ◌*◌, ◌/◌, ◌%◌, ◌^◌, ◌≡◌, refl, ap, ap₂, ◌∙◌, Bool, true, false, not, ◌&&◌, ◌||◌, some,
  List, [], ◌∷◌, ◌++◌, arith, bit_and, bit_or, ltb, ◌==◌, All,
}
use fpga_nes.Prelude.Bits.{third_bit, high_nibble, join_low}
use fpga_nes.Memory.{IsByte}
use fpga_nes.Host.{
  HostEvent, message, close_file, invalid_header, too_many_banks, bad_mirroring, bad_mapper,
}
use fpga_nes.LoadRom.{bad_magic, too_large, four_screen, has_mapper, load_tested, load_rom}
use fpga_nes.LoadRom.Outcome.{when, shown, passes, check_header_lem, read_file, load_rom_read}

-- The first eight bytes of an iNES file.
pub record Header : Type 0 where
  pub h0 : ℕ
  pub h1 : ℕ
  pub h2 : ℕ
  pub h3 : ℕ
  pub prg_banks : ℕ
  pub chr_banks : ℕ
  pub flags6 : ℕ
  pub flags7 : ℕ

abbrev pub header_bytes : Header → List ℕ
header_bytes h = h.h0 ∷ h.h1 ∷ h.h2 ∷ h.h3 ∷ h.prg_banks ∷ h.chr_banks ∷ h.flags6 ∷ h.flags7 ∷ []

-- The first four bytes as a number, low byte first; it is 0x1A53454E, "NES" and 0x1A.
abbrev pub magic_number : Header → ℕ
magic_number h = h.h0 + h.h1 * 0x100 + h.h2 * 0x10000 + h.h3 * 0x1000000

-- The sizes of both ROMs in bytes.
abbrev pub prg_size : Header → ℕ
prg_size h = h.prg_banks * 0x4000

abbrev pub chr_size : Header → ℕ
chr_size h = h.chr_banks * 0x2000

-- Bit 3 of the flags: four screens.
abbrev pub has_four_screens : Header → Bool
has_four_screens h = h.flags6 / 8 % 2 == 1

-- The number of the mapper: its low digit is the high digit of flags 6, its high digit that of flags 7.
abbrev pub mapper : Header → ℕ
mapper h = h.flags6 / 16 + h.flags7 / 16 * 16

-- What is wrong with a header for a machine with 32 KB of PRG ROM, 8 KB of CHR ROM, two screens and
-- no mapper.
abbrev pub complaints : Header → List HostEvent
complaints h =
    when (not (magic_number h == 0x1A53454E)) (message invalid_header)
    ++ (when (ltb 0x8000 (prg_size h) || ltb 0x2000 (chr_size h)) (message too_many_banks)
        ++ (when (has_four_screens h) (message bad_mirroring)
            ++ when (not (mapper h == 0)) (message bad_mapper)))

abbrev pub is_empty : List HostEvent → Bool
is_empty [] = true
is_empty (e ∷ es) = false

module _ (h : Header) (bytes : All IsByte (header_bytes h)) where
  bad_magic_lem : bad_magic h.h0 h.h1 h.h2 h.h3 ≡ not (magic_number h == 0x1A53454E)
  bad_magic_lem = let (b0, (b1, (b2, (b3, (b4, (b5, (b6, (b7, end)))))))) = bytes in ground arith

  too_large_lem :
      too_large h.prg_banks h.chr_banks ≡ (ltb 0x8000 (prg_size h) || ltb 0x2000 (chr_size h))
  too_large_lem = ground arith

  four_screen_lem : four_screen h.flags6 ≡ has_four_screens h
  four_screen_lem =
      let (b0, (b1, (b2, (b3, (b4, (b5, (b6, (b7, end)))))))) = bytes in
      ap (λ (y : ℕ). not (y == 0)) (third_bit h.flags6 b6) ∙ ground arith

  has_mapper_lem : has_mapper h.flags6 h.flags7 ≡ not (mapper h == 0)
  has_mapper_lem =
      let (b0, (b1, (b2, (b3, (b4, (b5, (b6, (b7, end)))))))) = bytes in
      let low : bit_and h.flags6 0xF0 / 2 ^ 4 ≡ h.flags6 / 16 =
        ap (λ (y : ℕ). y / 2 ^ 4) (high_nibble h.flags6 b6) ∙ omega arith in
      ap (λ (y : ℕ). not (y == 0))
        (ap₂ bit_or low (high_nibble h.flags7 b7)
          ∙ join_low (h.flags6 / 16) (h.flags7 / 16) (omega arith) (omega arith))

  shown_lem : shown h.h0 h.h1 h.h2 h.h3 h.prg_banks h.chr_banks h.flags6 h.flags7 ≡ complaints h
  shown_lem = rw (bad_magic_lem, too_large_lem, four_screen_lem, has_mapper_lem) refl

quiet :
    (p q u v : Bool) (e f g i : HostEvent)
    → (not p && not q && not u && not v)
      ≡ is_empty (when p e ++ (when q f ++ (when u g ++ when v i)))
quiet p q u v e f g i = ground arith

passes_lem :
    (h0 h1 h2 h3 banks chr_banks flags6 flags7 : ℕ)
    → passes h0 h1 h2 h3 banks chr_banks flags6 flags7
      ≡ is_empty (shown h0 h1 h2 h3 banks chr_banks flags6 flags7)
passes_lem h0 h1 h2 h3 banks chr_banks flags6 flags7 =
    quiet (bad_magic h0 h1 h2 h3) (too_large banks chr_banks) (four_screen flags6)
      (has_mapper flags6 flags7) _ _ _ _

-- A file whose header is not for this machine: its first four bytes are not "NES" and 0x1A, its PRG ROM has
-- more than 32 KB or its CHR ROM more than 8 KB, it asks for four screens, or the number of its mapper
-- is not 0. Each of these four that holds shows its message, in this order, nothing is sent to the
-- FPGA, and the file is closed.
pub load_rom_refuses :
    (garbage : ℕ → ℕ) (h : Header) (rest : List ℕ)
    → All IsByte (header_bytes h)
    → is_empty (complaints h) ≡ false
    → load_rom garbage (read_file (header_bytes h ++ rest)) []
      ≡ some (tt, complaints h ++ close_file ∷ [])
unfolding load_tested
load_rom_refuses garbage h rest bytes refused =
    let path = shown_lem h bytes in
    let fails : passes h.h0 h.h1 h.h2 h.h3 h.prg_banks h.chr_banks h.flags6 h.flags7 ≡ false =
      passes_lem h.h0 h.h1 h.h2 h.h3 h.prg_banks h.chr_banks h.flags6 h.flags7
      ∙ ap is_empty path
      ∙ refused in
    load_rom_read garbage _ _
      (check_header_lem h.h0 h.h1 h.h2 h.h3 h.prg_banks h.chr_banks h.flags6 h.flags7 rest)
      (rw fails)
    ∙ ap (λ l. some (tt, l ++ close_file ∷ [])) path
