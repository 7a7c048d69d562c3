-- ===== src/LoadRom/Loaded.antt =====
-- From the file to the machine: the bytes of `NesDbg::LoadRom` (sw/src/nesdbg.cpp) on the FPGA.
use fpga_nes.Prelude.{
  ℕ, ◌+◌, ◌*◌, ◌≡◌, refl, ap, ap₂, ◌∙◌, Bool, some, List, [], ◌∷◌, ◌++◌, append_assoc, arith, All,
  if◌then◌else◌,
}
use fpga_nes.Memory.{IsByte}
use fpga_nes.Protocol.{Command}
use fpga_nes.Hci.{HciState}
use fpga_nes.Link.{Event, cpu_write, ppu_write, reg_write, cart_update, Board, run}
use fpga_nes.Link.Clocks.{Scratch, fpga, writes}
use fpga_nes.Link.Effects.{cart_cfg_of, history, cfg_after_all, clocks_all}
use fpga_nes.Link.Session.{IsSession, session_lem}
use fpga_nes.Link.Laws.{history-append, cfg_after_all-append, All-append, All-behind}
use fpga_nes.Host.{HostEvent, close_file}
use fpga_nes.LoadRom.{load_rom}
use fpga_nes.LoadRom.Memory.{
  history-block_commands, cfg_after_all-block_commands, IsSession-block_commands,
}
use fpga_nes.LoadRom.Transfer.{Rom, HasSizes, prg, image, prg_commands, chr_commands, transfer_log}
use fpga_nes.LoadRom.Outcome.{IsSupported, read_file, load_rom_lem}
use fpga_nes.LoadRom.Sent.{
  sent_bytes, sent_bytes_lem, messages, messages-append, messages-block_log, rom_session,
}

-- Every field of the file is a byte.
pub record HasBytes (r : Rom) : Type 0 where
  pub header_bytes : IsByte r.flags6 × IsByte r.flags7 × IsByte r.ram_banks
  pub prg_bytes : All IsByte (prg r)
  pub chr_bytes : All IsByte r.chr

-- What the load makes the FPGA do.
abbrev pub load_events : Rom → List Event
load_events r =
    cpu_write 0x2000 0
    ∷ cpu_write 0x2001 0
    ∷ cart_update (cart_cfg_of r.prg_banks r.chr_banks r.flags6 r.flags7 r.ram_banks)
    ∷ (writes cpu_write 0x8000 (prg r)
        ++ (writes ppu_write 0 r.chr ++ reg_write 0 r.pcl ∷ reg_write 1 r.pch ∷ []))

module _ (r : Rom) (sizes : HasSizes r) where
  history-prg_commands :
      (b : Board) (trace : List Event)
      → history b trace (prg_commands r) ≡ trace ++ writes cpu_write 0x8000 (prg r)
  history-prg_commands b trace =
      history-block_commands Command.cpu_mem_wr 0x8000 0x400 b cpu_write (λ t a p. refl)
        (r.prg_banks * 16) 0 (prg r) trace (omega (arith, sizes.prg_size))

  history-chr_commands :
      (b : Board) (trace : List Event)
      → history b trace (chr_commands r) ≡ trace ++ writes ppu_write 0 r.chr
  history-chr_commands b trace =
      history-block_commands Command.ppu_mem_wr 0 0x400 b ppu_write (λ t a p. refl)
        (r.chr_banks * 8) 0 r.chr trace (omega (arith, sizes.chr_size))

  pub history-rom_session :
      (b : Board) (trace : List Event) → history b trace (rom_session r) ≡ trace ++ load_events r
  history-rom_session b trace =
      simp (history-append, history-prg_commands, history-chr_commands, append_assoc)

  pub cfg_after-rom_session :
      (cfg : ℕ)
      → cfg_after_all cfg (rom_session r)
        ≡ cart_cfg_of r.prg_banks r.chr_banks r.flags6 r.flags7 r.ram_banks
  cfg_after-rom_session cfg =
      let cart = cart_cfg_of r.prg_banks r.chr_banks r.flags6 r.flags7 r.ram_banks in
      rw (cfg_after_all-append, cfg_after_all-append)
        (ap (λ c. cfg_after_all c (chr_commands r))
            (cfg_after_all-block_commands Command.cpu_mem_wr 0x8000 0x400 cart (λ a p. refl)
              (r.prg_banks * 16) 0 (prg r))
          ∙ cfg_after_all-block_commands Command.ppu_mem_wr 0 0x400 cart (λ a p. refl)
              (r.chr_banks * 8) 0 r.chr)

  vector_bytes : HasBytes r → IsByte r.pcl × IsByte r.pch
  vector_bytes bytes =
      let vector =
        All-behind IsByte r.prg_body (r.pcl ∷ r.pch ∷ r.irq_lo ∷ r.irq_hi ∷ []) bytes.prg_bytes in
      (vector.0, vector.1.0)

  pub IsSession-rom_session : IsSupported r → HasBytes r → IsSession (rom_session r)
  IsSession-rom_session ok bytes = (
    (tt, tt),
    (
      (
        (
          omega (arith, ok.prg_fits),
          omega (arith, ok.chr_fits),
          bytes.header_bytes.0,
          bytes.header_bytes.1,
          bytes.header_bytes.2,
        ),
        tt,
      ),
      All-append _ _ _ prg_session (
          All-append _ _ _ chr_session (
            ((omega arith, (vector_bytes bytes).0), tt),
            (((omega arith, (vector_bytes bytes).1), tt), tt),
          )),
    ),
  )
    where
      prg_session : IsSession (prg_commands r)
      prg_session =
          IsSession-block_commands Command.cpu_mem_wr 0x8000 0x400 (omega arith)
            (λ a p ha hl hp. ((ha, hl, hp), tt)) (r.prg_banks * 16) 0 (prg r)
            (omega (arith, sizes.prg_size)) bytes.prg_bytes

      chr_session : IsSession (chr_commands r)
      chr_session =
          IsSession-block_commands Command.ppu_mem_wr 0 0x400 (omega arith)
            (λ a p ha hl hp. ((ha, hl, hp), tt)) (r.chr_banks * 8) 0 r.chr
            (omega (arith, sizes.chr_size)) bytes.chr_bytes

-- A supported ROM file whose sizes are those of its header, loaded over the serial line, whether the
-- machine was running or halted: the handler shows no message, and what it sends makes the FPGA turn
-- the PPU off, set the cartridge configuration from bytes 4 to 8 of the header, write the PRG ROM to
-- the CPU's addresses from 0x8000 on and the CHR ROM to the PPU's from 0 on, each byte once and in
-- order, set the program counter to the reset vector of the PRG ROM, and run, with its queue empty
-- and nothing sent back. No byte of the line is late, and fresh host memory, the buffer behind the
-- file and the board are arbitrary.
pub load_rom-loads :
    (garbage : ℕ → ℕ) (b : Board) (running : Bool) (r : Rom) (rest : List ℕ) (s : Scratch)
    (err cfg : ℕ) (trace : List Event)
    → HasSizes r
    → IsSupported r
    → HasBytes r
    → (log : List HostEvent) × (load_rom garbage (read_file (image r rest)) [] ≡ some (tt, log))
      × (messages log ≡ [])
      × (n : ℕ) × (s' : Scratch) × (run b n (
            fpga
              (if running then HciState.disabled else HciState.decode)
              s
              err
              cfg
              (sent_bytes log)
              trace)
          ≡ fpga HciState.disabled s' err
              (cart_cfg_of r.prg_banks r.chr_banks r.flags6 r.flags7 r.ram_banks)
              []
              (trace ++ load_events r))
load_rom-loads garbage b running r rest s err cfg trace sizes ok bytes =
    let session = rom_session r in
    let (s', served) =
      session_lem b err running session s cfg trace (IsSession-rom_session r sizes ok bytes) in
    (
      transfer_log r ++ close_file ∷ [],
      load_rom_lem garbage r rest sizes ok,
      simp (messages-append, messages-block_log),
      1 + (clocks_all session + 1),
      s',
      ap
            (λ rx.
              run b (1 + (clocks_all session + 1))
                (fpga (if running then HciState.disabled else HciState.decode) s err cfg rx trace))
            (sent_bytes_lem r)
          ∙ served
          ∙ ap₂ (λ c t. fpga HciState.disabled s' err c [] t) (cfg_after-rom_session r sizes cfg)
              (history-rom_session r sizes b trace),
    )
