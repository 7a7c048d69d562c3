-- ===== src/LoadRom/Stalled.antt =====
-- `NesDbg::LoadRom` of sw/src/nesdbg.cpp on a serial line that stalls.
use fpga_nes.Prelude.{
  ℕ, ◌+◌, ◌≤◌, ◌≡◌, ap, ap₂, ◌∙◌, Bool, some, List, [], ◌∷◌, ◌++◌, All, if◌then◌else◌,
}
use fpga_nes.Hci.{HciState}
use fpga_nes.Link.{Event, Board, Wires}
use fpga_nes.Link.Clocks.{Scratch, fpga}
use fpga_nes.Link.Effects.{cart_cfg_of, clocks_all}
use fpga_nes.Link.Schedule.{settle, IsCalm, ready_clocks, run_on}
use fpga_nes.Link.Stalls.{session-finishes}
use fpga_nes.Host.{HostEvent, close_file}
use fpga_nes.LoadRom.{load_rom}
use fpga_nes.LoadRom.Transfer.{Rom, HasSizes, image, transfer_log}
use fpga_nes.LoadRom.Outcome.{IsSupported, read_file, load_rom_lem}
use fpga_nes.LoadRom.Sent.{sent_bytes, sent_bytes_lem, rom_session}
use fpga_nes.LoadRom.Loaded.{
  HasBytes, load_events, cfg_after-rom_session, history-rom_session, IsSession-rom_session,
}

-- A supported ROM file whose sizes are those of its header, loaded over a line that may stall at any
-- clock: once the next byte could be taken and the UART had room in as many clocks as the load takes, the
-- board has seen exactly the writes of the load, in order, nothing was sent back, every byte that
-- `LoadRom` sent is taken, and the machine runs with the configuration of the file's header.
pub load_rom-finishes :
    (garbage : ℕ → ℕ) (b : Board) (ws : List Wires) (running : Bool) (r : Rom) (rest : List ℕ)
    (s : Scratch) (err cfg : ℕ) (trace : List Event)
    → HasSizes r
    → IsSupported r
    → HasBytes r
    → All IsCalm ws
    → 1 + (clocks_all (rom_session r) + 1) ≤ ready_clocks ws
    → (log : List HostEvent) × (load_rom garbage (read_file (image r rest)) [] ≡ some (tt, log))
      × (s' : Scratch) × (settle (
            run_on b ws (
              fpga
                (if running then HciState.disabled else HciState.decode)
                s
                err
                cfg
                (sent_bytes log)
                trace))
          ≡ settle (
              fpga HciState.disabled s' err
                (cart_cfg_of r.prg_banks r.chr_banks r.flags6 r.flags7 r.ram_banks)
                []
                (trace ++ load_events r)))
load_rom-finishes garbage b ws running r rest s err cfg trace sizes ok bytes calm enough =
    let session = rom_session r in
    let start = if running then HciState.disabled else HciState.decode in
    let (s', served) =
      session-finishes b ws err running session s cfg trace calm
        (IsSession-rom_session r sizes ok bytes) enough in
    (
      transfer_log r ++ close_file ∷ [],
      load_rom_lem garbage r rest sizes ok,
      s',
      ap
            (λ rx. settle (
              run_on b ws
                (fpga (if running then HciState.disabled else HciState.decode) s err cfg rx trace)))
            (sent_bytes_lem r)
          ∙ served
          ∙ ap₂ (λ c t. settle (fpga HciState.disabled s' err c [] t))
              (cfg_after-rom_session r sizes cfg) (history-rom_session r sizes b trace),
    )
