-- ===== src/Fifo.antt =====
-- The queue of bytes of hw/src/cmn/fifo/fifo.v, of which the UART of the host communication interface
-- has one in each direction, with ADDR_BITS 3. `step` is one clock.
pub mod Pointers
pub mod Queue
pub mod Order
pub mod Flags
use fpga_nes.Prelude.{
  ℕ, ◌+◌, ◌-◌, ◌%◌, ◌^◌, Bool, true, false, not, ◌&&◌, ◌||◌, List, [], ◌∷◌, ◌==◌, if◌then◌else◌,
}

-- The registers.
pub record Fifo : Type 0 where
  pub rd_ptr : ℕ
  pub wr_ptr : ℕ
  pub empty : Bool
  pub full : Bool
  pub data_array : ℕ → ℕ

pub record FifoInputs : Type 0 where
  pub rst : Bool
  pub rd_en : Bool
  pub wr_en : Bool
  pub wr_data : ℕ

abbrev pub rd_en_prot : FifoInputs → Fifo → Bool
rd_en_prot w q = w.rd_en && not q.empty

abbrev pub wr_en_prot : FifoInputs → Fifo → Bool
wr_en_prot w q = w.wr_en && not q.full

abbrev pub rd_data : Fifo → ℕ
rd_data q = q.data_array q.rd_ptr

-- `q_data_array[ptr] <= v`
abbrev pub store : (ℕ → ℕ) → ℕ → ℕ → ℕ → ℕ
store mem ptr v i = if i == ptr then v else mem i

module _ (addr_bits : ℕ) where
  abbrev pub depth : ℕ
  depth = 2 ^ addr_bits

  -- Increment and difference of pointers, `ADDR_BITS` wide.
  abbrev pub next_ptr : ℕ → ℕ
  next_ptr ptr = (ptr + 1) % depth

  abbrev pub ptr_diff : ℕ → ℕ → ℕ
  ptr_diff a b = (a + depth - b) % depth

  -- The registers after a clock without reset, by the protected enables.
  abbrev pub move : Bool → Bool → ℕ → Fifo → Fifo
  move rd wr v q = record {
    rd_ptr = if rd then next_ptr q.rd_ptr else q.rd_ptr;
    wr_ptr = if wr then next_ptr q.wr_ptr else q.wr_ptr;
    empty = (q.empty && not wr) || (ptr_diff q.wr_ptr q.rd_ptr == 1 && rd);
    full = (q.full && not rd) || (ptr_diff q.rd_ptr q.wr_ptr == 1 && wr);
    data_array = store q.data_array q.wr_ptr (if wr then v else q.data_array q.wr_ptr);
  }

  unfoldable pub step : FifoInputs → Fifo → Fifo
  step w q =
      if w.rst
      then record { rd_ptr = 0; wr_ptr = 0; empty = true; full = false; data_array = q.data_array }
      else move (rd_en_prot w q) (wr_en_prot w q) w.wr_data q
