-- ===== src/Uart/Rx.antt =====
-- The receiver of hw/src/cmn/uart/uart_rx.v, with 8 data bits, one stop bit and 16 ticks to a bit, as
-- uart.v instantiates it.
pub mod Clocks
mod Phases
pub mod Tuned
pub mod Samples
pub mod Frames
use fpga_nes.Prelude.{
  ℕ, zero, suc, ◌+◌, ◌*◌, ◌/◌, ◌%◌, Bool, true, false, not, ◌&&◌, ◌||◌, if◌then◌else◌, ◌==◌, List,
  [], ◌∷◌, ◌++◌,
}
use fpga_nes.Uart.Baud.{
  baud_clk_tick, baud_clk_cnt, SerialState, s_idle, s_start, s_data, s_parity, s_stop, xor_bits,
  tick_cnt, last_tick,
}

-- The registers; `rx_data` is q_data.
pub record Rx : Type 0 where
  pub state : SerialState
  pub oversample_tick_cnt : ℕ
  pub rx_data : ℕ
  pub data_bit_idx : ℕ
  pub done_tick : Bool
  pub parity_err : Bool
  pub rx : Bool

abbrev pub rx_reset : Rx
rx_reset = record {
  state = s_idle;
  oversample_tick_cnt = 0;
  rx_data = 0;
  data_bit_idx = 0;
  done_tick = false;
  parity_err = false;
  rx = true;
}

-- Two bits differ.
abbrev pub bit_ne : Bool → Bool → Bool
bit_ne a b = if a then not b else b

-- The parity bit that the receiver expects in PARITY_MODE `mode`.
abbrev pub rx_parity : ℕ → ℕ → Bool
rx_parity mode d = if mode == 1 then not (xor_bits d) else xor_bits d

-- { q_rx, q_data[7:1] }
abbrev pub shift_in : Bool → ℕ → ℕ
shift_in bit d = (if bit then 128 else 0) + d / 2

-- The case of the state, `d` being the registers by the defaults.
abbrev pub rx_case : ℕ → Bool → Rx → Rx → SerialState → Rx
rx_case mode tick q d s_idle =
    if not q.rx then record d { state = s_start; oversample_tick_cnt = 0 } else d
rx_case mode tick q d s_start =
    if last_tick tick 7 q.oversample_tick_cnt
    then record d { state = s_data; oversample_tick_cnt = 0; data_bit_idx = 0 }
    else d
rx_case mode tick q d s_data =
    if last_tick tick 15 q.oversample_tick_cnt
    then record d {
      rx_data = shift_in q.rx q.rx_data;
      oversample_tick_cnt = 0;
      state = if q.data_bit_idx == 7 then (if mode == 0 then s_stop else s_parity) else s_data;
      data_bit_idx = if q.data_bit_idx == 7 then 7 else (q.data_bit_idx + 1) % 8;
    }
    else d
rx_case mode tick q d s_parity =
    if last_tick tick 15 q.oversample_tick_cnt
    then record d {
      parity_err = bit_ne q.rx (rx_parity mode q.rx_data);
      state = s_stop;
      oversample_tick_cnt = 0;
    }
    else d
rx_case mode tick q d s_stop =
    if last_tick tick 15 q.oversample_tick_cnt
    then record d { state = s_idle; done_tick = true }
    else d

-- A clock of the receiver, with the tick and the level of its input.
unfoldable pub rx_clock : ℕ → Bool → Bool → Rx → Rx
rx_clock mode tick rx q =
    rx_case mode tick q
      (record q {
        oversample_tick_cnt = tick_cnt tick q.oversample_tick_cnt;
        done_tick = false;
        parity_err = false;
        rx = rx;
      })
      q.state

-- The receiver with the baud clock and what uart.v does with its outputs: the bytes written to the
-- receive queue, in order, and the flip flop that keeps a parity error.
pub record RxBlock : Type 0 where
  pub baud_cnt : ℕ
  pub regs : Rx
  pub written : List ℕ
  pub rx_parity_err : Bool

module _ (t mode : ℕ) where
  unfoldable pub rx_block_clock : Bool → RxBlock → RxBlock
  unfolding rx_clock
  rx_block_clock rx s = record {
    baud_cnt = baud_clk_cnt t s.baud_cnt;
    regs = rx_clock mode (baud_clk_tick t s.baud_cnt) rx s.regs;
    written = if s.regs.done_tick then s.written ++ (s.regs.rx_data ∷ []) else s.written;
    rx_parity_err = s.rx_parity_err || s.regs.parity_err;
  }

  -- `n` clocks from the clock `at` on, over an input with these levels.
  unfoldable pub listen : (ℕ → Bool) → ℕ → ℕ → RxBlock → RxBlock
  listen line at zero s = s
  listen line at (suc n) s = listen line (suc at) n (rx_block_clock (line at) s)
