-- ===== src/Uart/Tx.antt =====
-- The transmitter of hw/src/cmn/uart/uart_tx.v, with 8 data bits, one stop bit and 16 ticks to a bit, and
-- the transmit queue that feeds it, as uart.v instantiates them.
pub mod Clocks
mod Bits
pub mod Frames
use fpga_nes.Prelude.{
  ℕ, zero, suc, ◌+◌, ◌*◌, ◌/◌, ◌%◌, Bool, true, false, not, ◌&&◌, if◌then◌else◌, ◌==◌, List, [],
  ◌∷◌,
}
use fpga_nes.Uart.Baud.{
  baud_clk_tick, baud_clk_cnt, SerialState, s_idle, s_start, s_data, s_parity, s_stop, xor_bits,
  low_bit, tick_cnt, last_tick,
}

-- The registers; `tx_data` is q_data.
pub record Tx : Type 0 where
  pub state : SerialState
  pub baud_clk_tick_cnt : ℕ
  pub tx_data : ℕ
  pub data_bit_idx : ℕ
  pub parity_bit : Bool
  pub tx : Bool
  pub tx_done_tick : Bool

abbrev pub tx_reset : Tx
tx_reset = record {
  state = s_idle;
  baud_clk_tick_cnt = 0;
  tx_data = 0;
  data_bit_idx = 0;
  parity_bit = false;
  tx = true;
  tx_done_tick = false;
}

-- The parity bit that is latched in PARITY_MODE `mode`, `old` being the one before. In mode 2 it is the
-- lowest bit of the complement.
abbrev pub tx_parity : ℕ → ℕ → Bool → Bool
tx_parity mode d old =
    if mode == 1 then not (xor_bits d) else if mode == 2 then not (low_bit d) else old

-- The case of the state, `d` being the registers by the defaults.
abbrev pub tx_case : ℕ → Bool → Bool → ℕ → Tx → Tx → SerialState → Tx
tx_case mode tick tx_start tx_data q d s_idle =
    if tx_start && not q.tx_done_tick
    then record d {
      state = s_start;
      baud_clk_tick_cnt = 0;
      tx_data = tx_data;
      parity_bit = tx_parity mode tx_data q.parity_bit;
    }
    else d
tx_case mode tick tx_start tx_data q d s_start =
    if last_tick tick 15 q.baud_clk_tick_cnt
    then record d { tx = false; state = s_data; baud_clk_tick_cnt = 0; data_bit_idx = 0 }
    else record d { tx = false }
tx_case mode tick tx_start tx_data q d s_data =
    if last_tick tick 15 q.baud_clk_tick_cnt
    then record d {
      tx = low_bit q.tx_data;
      tx_data = q.tx_data / 2;
      data_bit_idx = (q.data_bit_idx + 1) % 8;
      baud_clk_tick_cnt = 0;
      state = if q.data_bit_idx == 7 then (if mode == 0 then s_stop else s_parity) else s_data;
    }
    else record d { tx = low_bit q.tx_data }
tx_case mode tick tx_start tx_data q d s_parity =
    if last_tick tick 15 q.baud_clk_tick_cnt
    then record d { tx = q.parity_bit; state = s_stop; baud_clk_tick_cnt = 0 }
    else record d { tx = q.parity_bit }
tx_case mode tick tx_start tx_data q d s_stop =
    if last_tick tick 15 q.baud_clk_tick_cnt
    then record d { state = s_idle; tx_done_tick = true }
    else d

-- A clock of the transmitter, with the tick and what the client asks it to send.
unfoldable pub tx_clock : ℕ → Bool → Bool → ℕ → Tx → Tx
tx_clock mode tick tx_start tx_data q =
    tx_case mode tick tx_start tx_data q
      (record q {
        baud_clk_tick_cnt = tick_cnt tick q.baud_clk_tick_cnt;
        tx_done_tick = false;
        tx = true;
      })
      q.state

-- The transmitter with the baud clock and the bytes in the transmit queue, to which nothing is written.
pub record TxBlock : Type 0 where
  pub baud_cnt : ℕ
  pub regs : Tx
  pub queue : List ℕ

-- The wires of the queue: ~empty, its front, and the queue after the clock.
abbrev pub not_empty : List ℕ → Bool
not_empty [] = false
not_empty (x ∷ xs) = true

abbrev pub front : List ℕ → ℕ
front [] = 0
front (x ∷ xs) = x

abbrev pub drop_front : List ℕ → List ℕ
drop_front [] = []
drop_front (x ∷ xs) = xs

module _ (t mode : ℕ) where
  unfoldable pub tx_block_clock : TxBlock → TxBlock
  unfolding tx_clock
  tx_block_clock s = record {
    baud_cnt = baud_clk_cnt t s.baud_cnt;
    regs = tx_clock mode (baud_clk_tick t s.baud_cnt) (not_empty s.queue) (front s.queue) s.regs;
    queue = if s.regs.tx_done_tick then drop_front s.queue else s.queue;
  }

  -- The state after `n` clocks, and the level of the wire after `n` clocks.
  unfoldable pub talk : ℕ → TxBlock → TxBlock
  talk zero s = s
  talk (suc n) s = talk n (tx_block_clock s)

  abbrev pub wire : TxBlock → ℕ → Bool
  wire s n = (talk n s).regs.tx
