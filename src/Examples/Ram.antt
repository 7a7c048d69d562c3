-- ===== src/Examples/Ram.antt =====
-- The ROM file of one PRG bank in the memories of the board, and a block of bytes in WRAM.
use fpga_nes.Prelude.{ℕ, ◌≡◌, true, false, some, List, [], ◌∷◌, ◌++◌, arith}
use fpga_nes.Hci.{HciState}
use fpga_nes.Link.{run, cpu_write}
use fpga_nes.Link.Clocks.{Scratch, fpga, writes}
use fpga_nes.Host.{HostEvent}
use fpga_nes.LoadRom.{load_rom}
use fpga_nes.LoadRom.Transfer.{image}
use fpga_nes.LoadRom.Outcome.{read_file}
use fpga_nes.LoadRom.Sent.{sent_bytes, messages}
use fpga_nes.Ram.{Ram, Memories, after_events}
use fpga_nes.Link.Echo.{replies}
use fpga_nes.Protocol.{Command, encode}
use fpga_nes.Ram.Writes.{contents, put, to_wram}
use fpga_nes.Ram.Clocked.{machine, run_machine}
use fpga_nes.Ram.RoundTrip.{write-read}
use fpga_nes.Ram.Load.{Shows, load_rom-visible}
use fpga_nes.Examples.{board, idle, garbage}
use fpga_nes.Examples.LoadedRom.{rom, rom-HasSizes, rom-IsSupported, rom-HasBytes}

abbrev blank : Ram
blank = record { ram = λ i. 0xFF; q_addr = 0 }

abbrev memories : Memories
memories = record { prgrom = blank; chrrom_pat = blank; wram = blank; vram = blank }

load_rom-visible_example :
    (log : List HostEvent) × (load_rom garbage (read_file (image rom [])) [] ≡ some (tt, log))
    × (messages log ≡ [])
    × (n : ℕ) × (let f = run board n (fpga HciState.disabled idle 0 0 (sent_bytes log) []) in
        (f.regs.state ≡ HciState.disabled)
        × (f.rx ≡ [])
        × Shows rom (after_events f.trace 0 memories))
load_rom-visible_example =
    load_rom-visible garbage board true rom [] idle 0 0 0 [] memories rom-HasSizes rom-IsSupported
      rom-HasBytes (omega arith)

abbrev block : List ℕ
block = 0x12 ∷ 0x34 ∷ 0xFF ∷ []

-- The last addresses of WRAM, which are those of its last mirror too.
write-read_example :
    (s' : Scratch) × (m' : Memories) × (run_machine board 19 (
        machine
          (fpga HciState.decode idle 0 0
            (encode (Command.cpu_mem_wr 0x1FFD block) ++ encode (Command.cpu_mem_rd 0x1FFD 3))
            [])
          memories)
      ≡ machine
          (fpga HciState.decode s' 0 0 [] (writes cpu_write 0x1FFD block ++ replies block))
          m')
    × (contents m' ≡ put 0 to_wram 0x1FFD block (contents memories))
write-read_example =
    write-read board false idle 0 0 0x1FFD block [] memories
      (omega arith, (omega arith, (omega arith, tt))) (omega arith) (omega arith) (omega arith)
