-- ===== src/Uart.antt =====
-- The host communication interface of hw/src/hci/hci.v with the queues of its UART,
-- hw/src/cmn/uart/uart.v: `system_clock` is one clock of both. The modules that sample and send the
-- bits, uart_rx and uart_tx, are the wires `Line`: what they tell the UART in a clock.
pub mod Baud
pub mod Frame
pub mod Rx
pub mod Tx
pub mod Wire
pub mod Pins
pub mod Stalls
pub mod Refines
pub mod Runs
pub mod Session
pub mod Room
use fpga_nes.Prelude.{ℕ, Bool, false, ◌||◌, List, [], ◌∷◌, ◌++◌}
use fpga_nes.Hci.{Regs, Inputs, Outputs, cycle}
use fpga_nes.Link.{Event, Board, Wires, observe}
use fpga_nes.Fifo.{Fifo, FifoInputs, rd_data, step}
use fpga_nes.Fifo.Order.{accepted}

-- A byte was received, that byte, it had the wrong parity, a byte was sent, and the break of the CPU.
pub record Line : Type 0 where
  pub rx_done_tick : Bool
  pub rx_byte : ℕ
  pub rx_parity_err : Bool
  pub tx_done_tick : Bool
  pub brk : Bool

pub record Uart : Type 0 where
  pub rx_fifo : Fifo
  pub tx_fifo : Fifo
  pub parity_err : Bool

pub record System : Type 0 where
  pub regs : Regs
  pub uart : Uart
  pub trace : List Event

-- The input wires of the two queues.
abbrev pub rx_wires : Bool → Line → FifoInputs
rx_wires rd_en l = record {
  rst = false;
  rd_en = rd_en;
  wr_en = l.rx_done_tick;
  wr_data = l.rx_byte;
}

abbrev pub tx_wires : Regs → Line → FifoInputs
tx_wires q l = record { rst = false; rd_en = l.tx_done_tick; wr_en = q.wr_en; wr_data = q.tx_data }

-- A clock of the UART, by the request of the interface to take a byte and its registers.
abbrev pub uart_step : Bool → Regs → Line → Uart → Uart
uart_step rd_en q l u = record {
  rx_fifo = step 3 (rx_wires rd_en l) u.rx_fifo;
  tx_fifo = step 3 (tx_wires q l) u.tx_fifo;
  parity_err = u.parity_err || l.rx_parity_err;
}

module _ (b : Board) where
  abbrev pub uart_inputs : Line → System → Inputs
  uart_inputs l s = record {
    rx_empty = s.uart.rx_fifo.empty;
    rd_data = rd_data s.uart.rx_fifo;
    tx_full = s.uart.tx_fifo.full;
    parity_err = s.uart.parity_err;
    brk = l.brk;
    cpu_din = b.cpu_din s.trace s.regs.addr;
    cpu_dbgreg_in = b.dbgreg s.trace;
    ppu_vram_din = b.ppu_din s.trace s.regs.addr;
  }

  unfoldable pub system_clock : Line → System → System
  system_clock l s =
      let i = uart_inputs l s in
      let r = cycle i s.regs in
      record {
        regs = r.0;
        uart = uart_step r.1.rd_en s.regs l s.uart;
        trace = observe i s.regs r.1 r.0 s.trace;
      }

  unfoldable pub run_system : List Line → System → System
  run_system [] s = s
  run_system (l ∷ ls) s = run_system ls (system_clock l s)

  -- The bytes that the receive queue takes over these clocks.
  unfoldable pub received : List Line → System → List ℕ
  received [] s = []
  received (l ∷ ls) s =
      accepted (rx_wires (cycle (uart_inputs l s) s.regs).1.rd_en l) s.uart.rx_fifo
      ++ received ls (system_clock l s)
