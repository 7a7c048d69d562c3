-- ===== src/Examples.antt =====
-- Concrete inputs of the theorems: a board, a Lua call, a serial port, and a ROM file.
mod Fpga
mod Debugger
mod Script
mod LoadedRom
mod TestRun
mod Stalls
mod Fifo
mod Program
mod Strings
mod Uart
mod Pins
mod Ram
use fpga_nes.Prelude.{ℕ, ◌+◌, ◌%◌, true, List, length, ◌==◌, if◌then◌else◌}
use fpga_nes.Link.{Board}
use fpga_nes.Link.Clocks.{Scratch, silent}
use fpga_nes.ScriptMgr.{LuaVm}

-- Reads return what the address or the register number says.
abbrev pub board : Board
board = record {
  cpu_din = λ trace a. a % 256;
  dbgreg = λ trace r. 0x40 + r;
  ppu_din = λ trace a. 0xEA;
  idle_data = 0xFF;
}

abbrev pub idle : Scratch
idle = silent 0 0 0

abbrev pub garbage : ℕ → ℕ
garbage n = 0xCD

-- A call whose arguments are the number 2 twice and the table {0x11, 0x112}.
abbrev pub vm : LuaVm
vm = record {
  is_number = λ arg. true;
  is_table = λ arg. true;
  is_string = λ arg. true;
  to_number = λ arg. 2;
  table_number = λ arg i. if i == 1 then 0x11 else 0x112;
}

-- As many clocks as the packet has bytes.
abbrev pub budget : List ℕ → ℕ
budget bytes = length bytes
