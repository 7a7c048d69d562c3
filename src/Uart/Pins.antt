-- ===== src/Uart/Pins.antt =====
-- The host interface down to its pins: hw/src/hci/hci.v with all of hw/src/cmn/uart/uart.v, its queues, its
-- baud clock, its receiver and its transmitter.
pub mod Views
pub mod Session
use fpga_nes.Prelude.{ℕ, zero, suc, Bool, true, false, not, List, [], ◌∷◌, ◌++◌, if◌then◌else◌}
use fpga_nes.Fifo.{rd_data}
use fpga_nes.Link.{Board}
use fpga_nes.Uart.{Line, System, system_clock}
use fpga_nes.Uart.Baud.{baud_clk_cnt, baud_clk_tick}
use fpga_nes.Uart.Rx.{Rx, rx_clock}
use fpga_nes.Uart.Tx.{Tx, tx_clock}

pub record Chip : Type 0 where
  pub baud_cnt : ℕ
  pub rx : Rx
  pub tx : Tx
  pub system : System

-- What the receiver and the transmitter tell the queues, with the break of the CPU.
abbrev pub line_of : Bool → Chip → Line
line_of brk c = record {
  rx_done_tick = c.rx.done_tick;
  rx_byte = c.rx.rx_data;
  rx_parity_err = c.rx.parity_err;
  tx_done_tick = c.tx.tx_done_tick;
  brk = brk;
}

-- `t` is CLKS_PER_OVERSAMPLE_TICK, and `mode` PARITY_MODE, which hci.v sets to 1.
module _ (b : Board) (t mode : ℕ) where
  -- A clock, with the level of the rx pin and the break of the CPU.
  unfoldable pub chip_clock : Bool → Bool → Chip → Chip
  chip_clock pin brk c =
      let tick = baud_clk_tick t c.baud_cnt in
      let queue = c.system.uart.tx_fifo in
      record {
        baud_cnt = baud_clk_cnt t c.baud_cnt;
        rx = rx_clock mode tick pin c.rx;
        tx = tx_clock mode tick (not queue.empty) (rd_data queue) c.tx;
        system = system_clock b (line_of brk c) c.system;
      }

  -- `n` clocks from the clock `at` on, over the levels of the rx pin, without a break by the CPU.
  unfoldable pub run_chip : (ℕ → Bool) → ℕ → ℕ → Chip → Chip
  run_chip line at zero c = c
  run_chip line at (suc n) c = run_chip line (suc at) n (chip_clock (line at) false c)

  -- What the receiver and the transmitter tell the queues over these clocks.
  unfoldable pub lines_of : (ℕ → Bool) → ℕ → ℕ → Chip → List Line
  lines_of line at zero c = []
  lines_of line at (suc n) c =
      line_of false c ∷ lines_of line (suc at) n (chip_clock (line at) false c)
