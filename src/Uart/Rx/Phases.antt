-- ===== src/Uart/Rx/Phases.antt =====
-- The states of the receiver of hw/src/cmn/uart/uart_rx.v over the clocks that they last.
use fpga_nes.Prelude.{
  ℕ, suc, ◌+◌, ◌-◌, ◌*◌, ◌<◌, ◌≡◌, ◌≢◌, refl, sym, ap, ap₂, ◌∙◌, Bool, true, false, List, arith,
}
use fpga_nes.Uart.Baud.{SerialState, s_idle, s_start, s_data, s_parity, s_stop}
use fpga_nes.Uart.Rx.{RxBlock, rx_block_clock, listen, shift_in, rx_parity, bit_ne}
use fpga_nes.Uart.Rx.Clocks.{block, pulse, last_cnt, Hears, Hears-trans, hear-tick, hear-state}

module _ (t mode : ℕ) (line : ℕ → Bool) where
  -- The start bit, from any count of the baud clock.
  pub hear-start :
      (at c d i : ℕ) (e : Bool) (ws : List ℕ)
      → c < t
      → t < 65536
      → Hears t mode line at
          (8 * t - c)
          (block c s_start 0 d i (line at) ws e)
          (block 0 s_data 0 d 0 (line (at + (8 * t - c))) ws e)
  unfolding rx_block_clock
  hear-start at c d i e ws h w =
      let n : ℕ = t - c - 1 in
      Hears-trans t mode line at (n + 1) (at + (n + 1)) (6 * t + t) (8 * t - c)
        (block c s_start 0 d i (line at) ws e)
        (hear-tick t mode line s_start at n c 0 d i e ws (λ q. cc) (omega arith) w (omega arith))
        (hear-state t mode line s_start 6 (at + (n + 1)) 1 d i e ws (λ q. cc) refl (omega arith) w
          (λ at' q. let x : suc at' ≡ at + (8 * t - c) = omega (arith, q) in rw x (ground arith)))
        refl (omega arith)

  module _ (pos : 0 < t) (w : t < 65536) where
    -- A state that lasts 16 ticks, by the clock that ends it.
    hear-bit :
        (st : SerialState) (at at' d i : ℕ) (e : Bool) (ws : List ℕ) {s : RxBlock}
        → st ≢ s_idle
        → last_cnt st ≡ 15
        → at' ≡ at + 16 * t
        → rx_block_clock t mode
            (line at')
            (block (t - 1) st (last_cnt st) d i (line (at' - 1)) ws e)
          ≡ s
        → Hears t mode line at (16 * t) (block 0 st 0 d i (line at) ws e) s
    hear-bit st at at' d i e ws busy last ends q =
        ap (λ (x : ℕ). listen t mode line (suc at) x (block 0 st 0 d i (line at) ws e))
          (omega arith)
        ∙ hear-state t mode line st 15 at 0 d i e ws busy (sym last) pos w (λ x f.
          ap₂
            (λ (y z : ℕ).
              rx_block_clock t mode (line y) (block (t - 1) st (last_cnt st) d i (line z) ws e))
            (omega (arith, ends, f)) (omega (arith, ends, f))
          ∙ q)

    -- A data bit: the level at its last clock but one is shifted in.
    pub hear-data :
        (at at' d i : ℕ) (e : Bool) (ws : List ℕ) (bit : Bool)
        → at' ≡ at + 16 * t
        → i < 7
        → line (at' - 1) ≡ bit
        → Hears t mode line at
            (16 * t)
            (block 0 s_data 0 d i (line at) ws e)
            (block 0 s_data 0 (shift_in bit d) (i + 1) (line at') ws e)
    unfolding rx_block_clock
    hear-data at at' d i e ws bit ends lt level =
        hear-bit s_data at at' d i e ws (λ q. cc) refl ends (rw level (ground arith))

    -- The last one.
    pub hear-last :
        (at at' d : ℕ) (e : Bool) (ws : List ℕ) (bit : Bool)
        → at' ≡ at + 16 * t
        → mode ≢ 0
        → line (at' - 1) ≡ bit
        → Hears t mode line at
            (16 * t)
            (block 0 s_data 0 d 7 (line at) ws e)
            (block 0 s_parity 0 (shift_in bit d) 7 (line at') ws e)
    unfolding rx_block_clock
    hear-last at at' d e ws bit ends some_parity level =
        hear-bit s_data at at' d 7 e ws (λ q. cc) refl ends (rw level (ground arith))

    -- The parity bit and its report, and the stop bit.
    pub hear-parity :
        (at at' d i : ℕ) (e : Bool) (ws : List ℕ) (bit : Bool)
        → at' ≡ at + 16 * t
        → line (at' - 1) ≡ bit
        → Hears t mode line at
            (16 * t)
            (block 0 s_parity 0 d i (line at) ws e)
            (pulse false (bit_ne bit (rx_parity mode d)) (block 0 s_stop 0 d i (line at') ws e))
    unfolding rx_block_clock
    hear-parity at at' d i e ws bit ends level =
        hear-bit s_parity at at' d i e ws (λ q. cc) refl ends (rw level (ground arith))

    pub hear-stop :
        (at at' d i : ℕ) (e : Bool) (ws : List ℕ)
        → at' ≡ at + 16 * t
        → Hears t mode line at
            (16 * t)
            (block 0 s_stop 0 d i (line at) ws e)
            (pulse true false (block 0 s_idle 0 d i (line at') ws e))
    unfolding rx_block_clock
    hear-stop at at' d i e ws ends =
        hear-bit s_stop at at' d i e ws (λ q. cc) refl ends (ground arith)
