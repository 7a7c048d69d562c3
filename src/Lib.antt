-- ===== src/Lib.antt =====
-- The debugger of the FPGA NES and its serial link: the program on Windows (sw/src) builds packets and
-- sends them over a serial port, and the host communication interface of the FPGA (hw/src/hci/hci.v)
-- carries them out on the CPU, the PPU and the cartridge, and answers.
--
-- Parts, and the code that each one models:
--   * Prelude: names and lemmas on lists, Booleans and bit operations.
--   * Memory: byte buffers of the C++ code; an access outside a buffer has no result.
--   * Protocol: the contract between the two sides, a command, its bytes and the length of its answer;
--     the opcodes are the enum DbgPacketOpCode of sw/src/dbgpacket.h.
--   * Packet: the classes of sw/src/dbgpacket.h and sw/src/dbgpacket.cpp. `echo_packet` is the
--     constructor EchoPacket::EchoPacket, and so on; `size_in_bytes` and `return_bytes_expected` are the
--     virtual methods. Packet.Wire and Packet.Construct hold their proofs.
--   * Hci: the state machine of hw/src/hci/hci.v; `cycle` is one evaluation of its combinational block,
--     Hci.Datapath holds the registers and the wires, Hci.Ranges the widths of the registers.
--   * Link: the interface with its receive queue. `clock` is one clock, `run` a number of clocks on wires
--     where the next byte is there and the transmit queue has room, and Link.Schedule.run_on a list of
--     clocks on wires that may stall. A trace lists what the board saw and what was sent back. `effects`
--     says what a command means for the board.
--   * Fifo: the queue of hw/src/cmn/fifo/fifo.v, one clock of it and its entries.
--   * Uart: hw/src/cmn/uart/uart.v with two such queues, in one clock with the interface. A `Line` is what
--     the modules that sample and send the bits tell it.
--   * Uart.Baud, Uart.Rx, Uart.Tx: these modules, hw/src/cmn/uart/uart_baud_clk.v, uart_rx.v and uart_tx.v;
--     `rx_clock` and `tx_clock` are one clock of each. Uart.Frame says what a byte is on the wire,
--     Uart.Wire joins a transmitter to a receiver, and Uart.Pins is the interface down to its pins.
--   * Ram: the memories that the interface reaches, hw/src/cmn/block_ram/block_ram.v, hw/src/cart/cart.v,
--     hw/src/wram.v and hw/src/vram.v, on the buses of hw/src/nes_top.v; `memories_clock` is one clock, and
--     `after_events` what a trace of Link leaves in them.
--   * Host, LoadRom: NesDbg::LoadRom of sw/src/nesdbg.cpp, as the messages and transmissions in order.
--   * RawDebug: DbgPacket::CreateObjFromString of sw/src/dbgpacket.cpp and NesDbg::RawDbgDlgProc in
--     sw/src/nesdbg.cpp, its Send button in RawDebug.Send and all its messages in RawDebug.Dialog.
--   * SerialComm: sw/src/serialcomm.cpp.
--   * ScriptMgr: the Lua functions of sw/src/scriptmgr.cpp; ScriptMgr.Halted joins them to Link, and
--     ScriptMgr.Session one call to the next.
--   * TestRun: ScriptMgr::TestScriptDlgRun of sw/src/scriptmgrdlg.cpp, with ExecuteScript, and
--     TestScriptDlgProc in TestRun.Dialog.
--   * NesDbg: WinMain and WndProc of sw/src/main.cpp, and the constructors, Init and destructors of the
--     classes NesDbg and ScriptMgr, as the calls made in order.
--   * Strings: the conversions of sw/src/util.h, the paths of the two dialogs, LuaPrint, and the output of the test script dialog.
--   * Examples: the theorems at concrete inputs.
--
-- Conventions. A byte is a natural number below 256, and conversions to BYTE, USHORT and UINT are
-- remainders. Fresh heap memory is an arbitrary function `garbage`. Windows, the Lua machine, the C
-- library and the board behind the interface are arguments, of which no law is asked but what a theorem
-- states; those of the C library are the record Strings.IsCrt.
-- Ram.Clocked steps the memories in every clock of the interface. For a whole ROM file Ram.Load steps them
-- with the events of the trace, and `cpu_read` is what they show at an address that is held for a clock;
-- the bus reads of S_PPU_DISABLE are not events.
-- LuaWaitForHlt loops for ever while the machine runs, so its loop has a number of rounds; n + 1 rounds
-- are enough when the answer to query n + 1 is not 0. All other loops recurse on their data or on a
-- count from the code. Numbers that Lua converts are not negative.
--
-- The serial bits are 8 data bits, a parity bit and one stop bit; the clocks of a tick of the baud clock
-- are a number from 1 to 65535, and bit lengths and ticks are compared in clocks of the receiver.
--
-- Not modelled: electrical levels on the wire (a level holds for whole clocks), what Windows
-- draws, the formatting of the progress and result texts, the CPU, the PPU and the sound (the board
-- is a parameter; Ram models the memories behind it), and the Lua library.
pub mod Prelude
pub mod Memory
pub mod Protocol
pub mod Packet
pub mod Hci
pub mod Link
pub mod Host
pub mod LoadRom
pub mod RawDebug
pub mod SerialComm
pub mod ScriptMgr
pub mod TestRun
pub mod Fifo
pub mod NesDbg
pub mod Strings
pub mod Uart
pub mod Ram
pub mod Examples
