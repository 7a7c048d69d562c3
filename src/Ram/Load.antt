-- ===== src/Ram/Load.antt =====
-- From the ROM file of `NesDbg::LoadRom` (sw/src/nesdbg.cpp) to what the buses of hw/src/nes_top.v show.
use fpga_nes.Prelude.{
  ℕ, ◌+◌, ◌*◌, ◌/◌, ◌%◌, ◌<◌, ◌≡◌, ap, ◌∙◌, Bool, some, List, [], get_elem?, if◌then◌else◌, ◌==◌,
}
use fpga_nes.Hci.{HciState}
use fpga_nes.Link.{Event, Board, run}
use fpga_nes.Link.Clocks.{Scratch, fpga}
use fpga_nes.Host.{HostEvent}
use fpga_nes.LoadRom.{load_rom}
use fpga_nes.LoadRom.Transfer.{Rom, HasSizes, prg, image}
use fpga_nes.LoadRom.Outcome.{IsSupported, read_file}
use fpga_nes.LoadRom.Sent.{sent_bytes, messages}
use fpga_nes.LoadRom.Loaded.{HasBytes, load_events, load_rom-loads}
use fpga_nes.Ram.{Memories, after_events, cpu_read, ppu_read, ciram_a10}
use fpga_nes.Ram.Writes.{after_events-append}
use fpga_nes.Ram.Loaded.{prg_visible, chr_visible, mirroring}

-- What a cartridge with this ROM shows: its PRG ROM at the CPU's addresses from 0x8000 to 0xFFFF, one bank
-- twice; its CHR ROM at the PPU's addresses from 0 on; and A10 of the name tables by bit 0 of the flags.
abbrev pub Shows : Rom → ℕ × Memories → Type 0
Shows r cm =
    ((i x : ℕ)
      → i < 0x8000
      → get_elem? (prg r) (i % (r.prg_banks * 0x4000)) ≡ some x
      → cpu_read cm.0 0 (0x8000 + i) cm.1 ≡ x)
    × ((i x : ℕ) → i < 0x2000 → get_elem? r.chr i ≡ some x → ppu_read cm.0 i cm.1 ≡ x)
    × ((a : ℕ) → ciram_a10 cm.0 a ≡ (if r.flags6 % 2 == 1 then a / 0x400 % 2 else a / 0x800 % 2))

-- A supported ROM file with at least one PRG bank, whose sizes are those of its header, loaded over the
-- serial line, whether the machine was running or halted, whatever the memories held and whatever happened
-- before: the handler shows no message; what it sends leaves the machine running, with an empty queue; and
-- after the last event of the load a read of the memories finds, at every CPU address from 0x8000 on, the
-- byte of the PRG ROM, a single bank twice, at the PPU's addresses from 0 on the CHR ROM, and the name
-- tables mirrored as the header says. No byte of the line is late.
pub load_rom-visible :
    (garbage : ℕ → ℕ) (b : Board) (running : Bool) (r : Rom) (rest : List ℕ) (s : Scratch)
    (err cfg cfg' : ℕ) (trace : List Event) (m : Memories)
    → HasSizes r
    → IsSupported r
    → HasBytes r
    → 0 < r.prg_banks
    → (log : List HostEvent) × (load_rom garbage (read_file (image r rest)) [] ≡ some (tt, log))
      × (messages log ≡ [])
      × (n : ℕ) × (let f = run b n (
            fpga
              (if running then HciState.disabled else HciState.decode)
              s
              err
              cfg
              (sent_bytes log)
              trace) in
          (f.regs.state ≡ HciState.disabled) × (f.rx ≡ []) × Shows r (after_events f.trace cfg' m))
load_rom-visible garbage b running r rest s err cfg cfg' trace m sizes ok bytes some_bank =
    let (log, came, quiet, n, s', ends) =
      load_rom-loads garbage b running r rest s err cfg trace sizes ok bytes in
    let (c0, m0) = after_events trace cfg' m in
    let seen =
      ap (λ f. after_events f.trace cfg' m) ends
      ∙ after_events-append trace (load_events r) cfg' m in
    let shows : Shows r (after_events (load_events r) c0 m0) = (
      λ i x. prg_visible r c0 m0 sizes ok bytes i x some_bank,
      chr_visible r c0 m0 sizes ok bytes,
      mirroring r c0 m0 sizes ok bytes,
    ) in
    (log, came, quiet, n, (ap (λ f. f.regs.state) ends, ap (λ f. f.rx) ends, rw seen shows))
