-- ===== src/Uart/Baud.antt =====
-- The baud clock of hw/src/cmn/uart/uart_baud_clk.v, and what the receiver and the transmitter,
-- uart_rx.v and uart_tx.v, share: the states and the parity of a byte.
use fpga_nes.Prelude.{ℕ, ◌+◌, ◌-◌, ◌/◌, ◌%◌, Bool, ◌&&◌, if◌then◌else◌, ◌==◌}

-- The clocks between two ticks, CLKS_PER_OVERSAMPLE_TICK, for the two frequencies.
abbrev pub clks_per_oversample_tick : ℕ → ℕ → ℕ
clks_per_oversample_tick sys_clk_freq baud = sys_clk_freq / baud / 16 % 65536

-- The tick, and the 16-bit counter after a clock, where `t` is CLKS_PER_OVERSAMPLE_TICK.
abbrev pub baud_clk_tick : ℕ → ℕ → Bool
baud_clk_tick t cnt = cnt == t - 1

abbrev pub baud_clk_cnt : ℕ → ℕ → ℕ
baud_clk_cnt t cnt = if cnt == t - 1 then 0 else (cnt + 1) % 65536

pub data SerialState : Type 0 where
  s_idle s_start s_data s_parity s_stop : SerialState

-- The exclusive or of the bits of a byte, `^`, and its lowest bit.
abbrev pub xor_bits : ℕ → Bool
xor_bits d = (d + d / 2 + d / 4 + d / 8 + d / 16 + d / 32 + d / 64 + d / 128) % 2 == 1

abbrev pub low_bit : ℕ → Bool
low_bit d = d % 2 == 1

-- The 4-bit counter of ticks.
abbrev pub tick_cnt : Bool → ℕ → ℕ
tick_cnt tick cnt = if tick then (cnt + 1) % 16 else cnt

-- Is a tick the one that ends a wait for `n` more ticks?
abbrev pub last_tick : Bool → ℕ → ℕ → Bool
last_tick tick n cnt = tick && (cnt == n)
