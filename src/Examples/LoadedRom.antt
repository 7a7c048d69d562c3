-- ===== src/Examples/LoadedRom.antt =====
-- A ROM file of one PRG bank, loaded into a running machine.
use fpga_nes.Prelude.{
  ℕ, zero, suc, ◌+◌, ◌≡◌, refl, ap, true, some, List, [], ◌∷◌, arith, length, length-append, All,
}
use fpga_nes.Memory.{IsByte}
use fpga_nes.Hci.{HciState}
use fpga_nes.Link.Clocks.{Scratch, fpga}
use fpga_nes.Link.Laws.{All-append}
use fpga_nes.Host.{HostEvent}
use fpga_nes.LoadRom.{load_rom}
use fpga_nes.LoadRom.Transfer.{Rom, HasSizes, image}
use fpga_nes.LoadRom.Outcome.{IsSupported, read_file}
use fpga_nes.LoadRom.Sent.{sent_bytes, rom_session}
use fpga_nes.LoadRom.Loaded.{HasBytes, load_events}
use fpga_nes.Link.Effects.{clocks_all}
use fpga_nes.Link.Schedule.{settle, run_on}
use fpga_nes.LoadRom.Stalled.{load_rom-finishes}
use fpga_nes.Examples.Stalls.{stuttering, ready_clocks-stuttering, IsCalm-stuttering}
use fpga_nes.Examples.{board, idle, garbage}

pub no_ops : ℕ → List ℕ
no_ops zero = []
no_ops (suc n) = 0xEA ∷ no_ops n

length-no_ops : (n : ℕ) → length (no_ops n) ≡ n
unfolding no_ops
length-no_ops zero = refl
length-no_ops (suc n) = ap suc (length-no_ops n)

IsByte-no_ops : (n : ℕ) → All IsByte (no_ops n)
unfolding no_ops
IsByte-no_ops zero = tt
IsByte-no_ops (suc n) = (omega arith, IsByte-no_ops n)

-- Nothing but NOPs and a reset vector to 0x8000.
abbrev pub rom : Rom
rom = record {
  prg_banks = 1;
  chr_banks = 0;
  flags6 = 0x01;
  flags7 = 0;
  ram_banks = 0;
  padding = 0 ∷ 0 ∷ 0 ∷ 0 ∷ 0 ∷ 0 ∷ 0 ∷ [];
  prg_body = no_ops 16380;
  pcl = 0x00;
  pch = 0x80;
  irq_lo = 0;
  irq_hi = 0;
  chr = [];
}

pub rom-HasSizes : HasSizes rom
rom-HasSizes = record {
  padding_size = refl;
  prg_size =
      omega (arith, length-no_ops 16380, length-append (no_ops 16380) (0x00 ∷ 0x80 ∷ 0 ∷ 0 ∷ []));
  chr_size = refl;
}

pub rom-IsSupported : IsSupported rom
rom-IsSupported = record {
  prg_fits = omega arith;
  chr_fits = omega arith;
  two_screens = refl;
  mapper_zero = refl;
}

pub rom-HasBytes : HasBytes rom
rom-HasBytes = record {
  header_bytes = (omega arith, omega arith, omega arith);
  prg_bytes =
      All-append IsByte (no_ops 16380) (0x00 ∷ 0x80 ∷ 0 ∷ 0 ∷ []) (IsByte-no_ops 16380)
        (omega arith, (omega arith, (omega arith, (omega arith, tt))));
  chr_bytes = tt;
}

-- Twice as many clocks as the ROM takes, of which every other one is ready.
abbrev ready : ℕ
ready = 1 + (clocks_all (rom_session rom) + 1)

load_rom-finishes_example :
    (log : List HostEvent) × (load_rom garbage (read_file (image rom [])) [] ≡ some (tt, log))
    × (s' : Scratch) × (settle
          (run_on board (stuttering ready) (fpga HciState.disabled idle 0 0 (sent_bytes log) []))
        ≡ settle (fpga HciState.disabled s' 0 0x0100010000 [] (load_events rom)))
load_rom-finishes_example =
    load_rom-finishes garbage board (stuttering ready) true rom [] idle 0 0 [] rom-HasSizes
      rom-IsSupported rom-HasBytes (IsCalm-stuttering ready)
      (omega (arith, ready_clocks-stuttering ready))
