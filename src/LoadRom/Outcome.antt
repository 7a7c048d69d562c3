-- ===== src/LoadRom/Outcome.antt =====
-- `NesDbg::LoadRom` of sw/src/nesdbg.cpp as a whole, on a supported file.
use fpga_nes.Prelude.{
  ℕ, ◌/◌, ◌^◌, ◌≤◌, ◌≡◌, ap₂, ◌∙◌, Bool, true, false, not, ◌&&◌, some, List, [], ◌∷◌, ◌++◌, arith,
  bit_and, bit_or,
}
use fpga_nes.Host.{
  HostEvent, message, close_file, bind_lem, tell, tell_if, pure, invalid_header, too_many_banks,
  bad_mirroring, bad_mapper, ◌>>◌,
}
use fpga_nes.LoadRom.{
  RomFile, bad_magic, too_large, four_screen, has_mapper, check_header, load_tested, load_file_data,
  load_rom,
}
use fpga_nes.LoadRom.Transfer.{Rom, HasSizes, image, transfer_log, transfer_lem}

-- What the loader supports: mapper 0, two PRG banks and one CHR bank at most, no four-screen
-- mirroring.
pub record IsSupported (r : Rom) : Type 0 where
  pub prg_fits : r.prg_banks ≤ 2
  pub chr_fits : r.chr_banks ≤ 1
  pub two_screens : bit_and r.flags6 0x08 ≡ 0
  pub mapper_zero : bit_or (bit_and r.flags6 0xF0 / 2 ^ 4) (bit_and r.flags7 0xF0) ≡ 0

abbrev pub when : Bool → HostEvent → List HostEvent
when true e = e ∷ []
when false e = []

-- The messages for a header, one for each test of the code that it fails.
abbrev pub shown : ℕ → ℕ → ℕ → ℕ → ℕ → ℕ → ℕ → ℕ → List HostEvent
shown h0 h1 h2 h3 banks chr_banks flags6 flags7 =
    when (bad_magic h0 h1 h2 h3) (message invalid_header)
    ++ (when (too_large banks chr_banks) (message too_many_banks)
        ++ (when (four_screen flags6) (message bad_mirroring)
            ++ when (has_mapper flags6 flags7) (message bad_mapper)))

abbrev pub passes : ℕ → ℕ → ℕ → ℕ → ℕ → ℕ → ℕ → ℕ → Bool
passes h0 h1 h2 h3 banks chr_banks flags6 flags7 =
    not (bad_magic h0 h1 h2 h3)
    && not (too_large banks chr_banks)
    && not (four_screen flags6)
    && not (has_mapper flags6 flags7)

-- The tests report in turn.
reported :
    (p q u v : Bool) (e f g h : HostEvent) (out : Bool × ℕ × ℕ)
    → (do tell_if p e; tell_if q f; tell_if u g; tell_if v h; pure out) []
      ≡ some (out, when p e ++ (when q f ++ (when u g ++ when v h)))
reported p q u v e f g h out = ground arith

pub check_header_lem :
    (h0 h1 h2 h3 banks chr_banks flags6 flags7 : ℕ) (rest : List ℕ)
    → check_header (h0 ∷ h1 ∷ h2 ∷ h3 ∷ banks ∷ chr_banks ∷ flags6 ∷ flags7 ∷ rest) []
      ≡ some (
        (passes h0 h1 h2 h3 banks chr_banks flags6 flags7, banks, chr_banks),
        shown h0 h1 h2 h3 banks chr_banks flags6 flags7,
      )
unfolding check_header
check_header_lem h0 h1 h2 h3 banks chr_banks flags6 flags7 rest =
    reported (bad_magic h0 h1 h2 h3) (too_large banks chr_banks) (four_screen flags6)
      (has_mapper flags6 flags7) _ _ _ _ _

-- The file that Windows handed over, read without a fault.
abbrev pub read_file : List ℕ → RomFile
read_file buffer = record { chosen = true; opened = true; read_ok = true; buffer = buffer }

-- The three stages of the handler on a file that was read.
pub load_rom_read :
    (garbage : ℕ → ℕ) (buffer : List ℕ) (log : List HostEvent) {out : Bool × ℕ × ℕ}
    {log' : List HostEvent}
    → check_header buffer [] ≡ some (out, log)
    → load_tested garbage buffer out log ≡ some (tt, log')
    → load_rom garbage (read_file buffer) [] ≡ some (tt, log' ++ close_file ∷ [])
unfolding load_rom
load_rom_read garbage buffer log tested done =
    bind_lem (load_file_data garbage true buffer) (λ _. tell close_file) []
      (bind_lem (check_header buffer) (load_tested garbage buffer) [] tested ∙ done)

-- A supported file: the header passes without a message.
header_passes :
    (r : Rom)
    → IsSupported r
    → passes b'N' b'E' b'S' 0x1A r.prg_banks r.chr_banks r.flags6 r.flags7 ≡ true
header_passes r h = ground arith

header_quiet :
    (r : Rom)
    → IsSupported r
    → shown b'N' b'E' b'S' 0x1A r.prg_banks r.chr_banks r.flags6 r.flags7 ≡ []
header_quiet r h = ground arith

pub load_rom_lem :
    (garbage : ℕ → ℕ) (r : Rom) (rest : List ℕ)
    → HasSizes r
    → IsSupported r
    → load_rom garbage (read_file (image r rest)) [] ≡ some (tt, transfer_log r ++ close_file ∷ [])
unfolding load_tested
load_rom_lem garbage r rest sizes ok =
    load_rom_read garbage (image r rest) []
      (check_header_lem b'N' b'E' b'S' 0x1A r.prg_banks r.chr_banks r.flags6 r.flags7 _
        ∙ ap₂ (λ p l. some ((p, r.prg_banks, r.chr_banks), l)) (header_passes r ok)
            (header_quiet r ok))
      (transfer_lem garbage r rest sizes)
