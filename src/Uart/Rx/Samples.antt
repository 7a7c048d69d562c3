-- ===== src/Uart/Rx/Samples.antt =====
-- The receiver of hw/src/cmn/uart/uart_rx.v and the bits that it samples.
use fpga_nes.Prelude.{
  ℕ, zero, suc, ◌+◌, ◌-◌, ◌*◌, ◌≤◌, ◌<◌, ◌≡◌, ◌≢◌, refl, sym, ap, ap₂, ◌∙◌, Bool, true, false, ◌||◌,
  List, [], ◌∷◌, arith, length,
}
use fpga_nes.Uart.Baud.{
  baud_clk_cnt, baud_clk_tick, tick_cnt, s_idle, s_start, s_data, s_parity, s_stop,
}
use fpga_nes.Uart.Frame.{Wire, Level}
use fpga_nes.Uart.Rx.{RxBlock, rx_block_clock, listen, rx_parity, bit_ne, shift_in}
use fpga_nes.Uart.Rx.Clocks.{block, pulse, Hears, Hears-trans, listen-add, hear-pulse}
use fpga_nes.Uart.Rx.Phases.{hear-start, hear-data, hear-last, hear-parity, hear-stop}
use fpga_nes.Uart.Rx.Tuned.{shift_all, Samples}

-- The receiver waits for a start bit, with an idle wire.
abbrev pub IsIdle : ℕ → List ℕ → Bool → RxBlock → Type 0
IsIdle t ws e s =
    (c : ℕ) × (k : ℕ) × (d : ℕ) × (i : ℕ) × (c < t)
    × (d < 256)
    × (s ≡ block c s_idle k d i true ws e)

pub or_false : (x : Bool) → (x || false) ≡ x
or_false true = refl
or_false false = refl

module _ (t mode : ℕ) (line : Wire) where
  clock-idle :
      (c k d i : ℕ) (new e : Bool) (ws : List ℕ)
      → rx_block_clock t mode new (block c s_idle k d i true ws e)
        ≡ block (baud_clk_cnt t c) s_idle (tick_cnt (baud_clk_tick t c) k) d i new ws e
  unfolding rx_block_clock
  clock-idle c k d i new e ws = ground arith

  clock-fall :
      (c k d i : ℕ) (new e : Bool) (ws : List ℕ)
      → rx_block_clock t mode new (block c s_idle k d i false ws e)
        ≡ block (baud_clk_cnt t c) s_start 0 d i new ws e
  unfolding rx_block_clock
  clock-fall c k d i new e ws = ground arith

  pub IsIdle-listen :
      (n at : ℕ) (ws : List ℕ) (e : Bool) (s : RxBlock)
      → t < 65536
      → Level line at n true
      → IsIdle t ws e s
      → IsIdle t ws e (listen t mode line at n s)
  unfolding listen rx_block_clock
  IsIdle-listen zero at ws e s w high idle = idle
  IsIdle-listen (suc n) at ws e s w high (c, k, d, i, lt, byte, q) =
      IsIdle-listen n (suc at) ws e (rx_block_clock t mode (line at) s) w
        (λ x lt'. ap line (omega arith) ∙ high (suc x) (omega arith))
        (
          baud_clk_cnt t c,
          tick_cnt (baud_clk_tick t c) k,
          d,
          i,
          ground arith,
          byte,
          ap (rx_block_clock t mode (line at)) q
              ∙ clock-idle c k d i (line at) e ws
              ∙ ap
                  (λ bit.
                    block (baud_clk_cnt t c) s_idle (tick_cnt (baud_clk_tick t c) k) d i bit ws e)
                  (ap line (omega arith) ∙ high 0 (omega arith)),
        )

  -- The falling edge and the start bit: the receiver samples the data bits from the clock `from` on.
  pub hear-edge :
      (at from c k d i : ℕ) (e : Bool) (ws : List ℕ)
      → t < 65536
      → 0 < t
      → c < t
      → line at ≡ false
      → from ≡ suc at + (8 * t - baud_clk_cnt t (baud_clk_cnt t c))
      → listen t mode line at (from + 1 - at) (block c s_idle k d i true ws e)
        ≡ block 0 s_data 0 d 0 (line from) ws e
  unfolding listen
  hear-edge at from c k d i e ws w pos lt low start =
      let c' = baud_clk_cnt t c in
      let c'' = baud_clk_cnt t c' in
      let below : c'' < t = ground arith in
      ap (λ (x : ℕ). listen t mode line at x (block c s_idle k d i true ws e))
        (let n : from + 1 - at ≡ 2 + (8 * t - c'') = omega (arith, start, below) in n)
      ∙ listen-add t mode line at 2 (8 * t - c'') (block c s_idle k d i true ws e)
      ∙ ap₂ (λ (x : ℕ) s. listen t mode line x (8 * t - c'') s) (omega arith)
          (ap (rx_block_clock t mode (line (suc at))) (
              clock-idle c k d i (line at) e ws
              ∙ ap (λ bit. block c' s_idle (tick_cnt (baud_clk_tick t c) k) d i bit ws e) low)
            ∙ clock-fall c' (tick_cnt (baud_clk_tick t c) k) d i (line (suc at)) e ws)
      ∙ hear-start t mode line (suc at) c'' d i e ws below w
      ∙ ap (λ (x : ℕ). block 0 s_data 0 d 0 (line x) ws e) (omega (arith, start))

  module _ (w : t < 65536) (pos : 0 < t) where
    pub hear-bits :
        (xs : List Bool) (from d i : ℕ) (e : Bool) (ws : List ℕ)
        → i + length xs ≤ 7
        → Samples t line from xs
        → Hears t mode line from (length xs * (16 * t)) (block 0 s_data 0 d i (line from) ws e) (
            block 0 s_data 0
              (shift_all d xs)
              (i + length xs)
              (line (from + length xs * (16 * t)))
              ws
              e)
    unfolding listen
    hear-bits [] from d i e ws h levels =
        ap (λ (x : ℕ). listen t mode line (suc from) x (block 0 s_data 0 d i (line from) ws e))
          (let z : 0 * (16 * t) ≡ 0 = omega arith in z)
        ∙ ap₂ (λ (x y : ℕ). block 0 s_data 0 d x (line y) ws e) (omega arith) (omega arith)
    hear-bits (x ∷ xs) from d i e ws h (level, levels) =
        Hears-trans t mode line from (16 * t) (from + 16 * t) (length xs * (16 * t))
          (length (x ∷ xs) * (16 * t)) (block 0 s_data 0 d i (line from) ws e)
          (hear-data t mode line pos w from (from + 16 * t) d i e ws x refl (omega arith) level)
          (hear-bits xs (from + 16 * t) (shift_in x d) (i + 1) e ws (omega arith) levels
            ∙ ap₂ (λ (n y : ℕ). block 0 s_data 0 (shift_all (shift_in x d) xs) n (line y) ws e)
                (omega arith) (grind arith))
          refl (grind arith)

    -- Seven data bits, the last one, the parity bit and the stop bit.
    pub hear-rest :
        (xs : List Bool) (last parity e : Bool) (from d : ℕ) (ws : List ℕ)
        → length xs ≡ 7
        → mode ≢ 0
        → Samples t line from xs
        → line (from + 128 * t - 1) ≡ last
        → line (from + 144 * t - 1) ≡ parity
        → Hears t mode line from (160 * t) (block 0 s_data 0 d 0 (line from) ws e) (
            pulse true false (
              block 0 s_idle 0
                (shift_in last (shift_all d xs))
                7
                (line (from + 160 * t))
                ws
                (e || bit_ne parity (rx_parity mode (shift_in last (shift_all d xs))))))
    hear-rest xs last parity e from d ws seven some_parity levels level8 level9 =
        let d' = shift_all d xs in
        let d'' = shift_in last d' in
        let e' = e || bit_ne parity (rx_parity mode d'') in
        Hears-trans t mode line from (7 * (16 * t)) (from + 112 * t) (48 * t) (160 * t)
          (block 0 s_data 0 d 0 (line from) ws e)
          (ap
              (λ (n : ℕ).
                listen t mode line (suc from) (n * (16 * t))
                  (block 0 s_data 0 d 0 (line from) ws e))
              (sym seven)
            ∙ hear-bits xs from d 0 e ws (omega (arith, seven)) levels
            ∙ ap₂ (λ (i x : ℕ). block 0 s_data 0 d' i (line x) ws e) (omega (arith, seven))
                (ap (λ (n : ℕ). from + n * (16 * t)) seven ∙ omega arith))
          (Hears-trans t mode line (from + 112 * t) (16 * t) (from + 128 * t) (32 * t) (48 * t)
            (block 0 s_data 0 d' 7 (line (from + 112 * t)) ws e)
            (hear-last t mode line pos w (from + 112 * t) (from + 128 * t) d' e ws last
              (omega arith) some_parity level8)
            (Hears-trans t mode line (from + 128 * t) (16 * t) (from + 144 * t) (16 * t) (32 * t)
              (block 0 s_parity 0 d'' 7 (line (from + 128 * t)) ws e)
              (hear-parity t mode line pos w (from + 128 * t) (from + 144 * t) d'' 7 e ws parity
                (omega arith) level9)
              (hear-pulse t mode line s_stop (suc (from + 144 * t)) (16 * t) 0 0 d'' 7
                  (line (from + 144 * t)) false (bit_ne parity (rx_parity mode d'')) e ws
                  (omega arith)
                ∙ hear-stop t mode line pos w (from + 144 * t) (from + 160 * t) d'' 7 e' ws
                    (omega arith))
              (omega arith) (omega arith))
            (omega arith) (omega arith))
          (omega arith) (omega arith)
