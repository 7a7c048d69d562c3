-- ===== src/Uart/Wire.antt =====
-- Two UARTs on one wire: a transmitter, hw/src/cmn/uart/uart_tx.v, that sends its queue to a receiver,
-- uart_rx.v, each with a baud clock of its own.
use fpga_nes.Prelude.{
  ℕ, ◌+◌, ◌*◌, ◌/◌, ◌≤◌, ◌<◌, ◌≡◌, ◌⊎◌, inl, inr, refl, ap, ap₂, Bool, true, false, not, ◌||◌, List,
  [], ◌∷◌, ◌++◌, All, arith,
}
use mathlib.Core.List.{map}
use fpga_nes.Uart.Baud.{s_idle, xor_bits, baud_clk_cnt}
use fpga_nes.Uart.Frame.{Byte, clocks}
use fpga_nes.Uart.Rx.{RxBlock, listen, bit_ne, rx_parity}
use fpga_nes.Uart.Rx.Samples.{IsIdle, or_false}
use fpga_nes.Uart.Rx.Tuned.{IsInTune}
use fpga_nes.Uart.Rx.Frames.{any_wrong, listen-frames}
use fpga_nes.Uart.Tx.{talk, wire, tx_parity}
use fpga_nes.Uart.Tx.Clocks.{block}
use fpga_nes.Uart.Tx.Frames.{frames, talk-Sends}

-- The clocks of a tick of the transmitter and of the receiver are close enough: between 0.958 and 1.043
-- of each other, but for a clock.
abbrev pub IsTuned : ℕ → ℕ → Type 0
IsTuned t t' = (160 * t ≤ 167 * t' + 1) × (168 * t' + 2 ≤ 175 * t)

abbrev IsByte : ℕ → Type 0
IsByte x = x < 256

-- A parity bit that the transmitter latched is not the one that the receiver expects.
abbrev pub any_misread : ℕ → List ℕ → Bool
any_misread mode [] = false
any_misread mode (x ∷ xs) =
    bit_ne (tx_parity mode x false) (rx_parity mode x) || any_misread mode xs

module _ (t t' mode : ℕ) where
  bytes-frames : (c : ℕ) (qs : List ℕ) → map (λ (f : Byte). f.byte) (frames t mode c qs) ≡ qs
  bytes-frames c [] = refl
  bytes-frames c (x ∷ qs) = ap (λ xs. x ∷ xs) (bytes-frames (baud_clk_cnt t 0) qs)

  frames-IsInTune :
      (c : ℕ) (qs : List ℕ)
      → 0 < t
      → c < t
      → IsTuned t t'
      → All IsByte qs
      → All
          (λ (f : Byte). (f.byte < 256) × IsInTune t' f.start_clocks (16 * t))
          (frames t mode c qs)
  frames-IsInTune c [] pos h tuned small = tt
  frames-IsInTune c (x ∷ qs) pos h tuned (lt, small) =
      let below : baud_clk_cnt t c < t = ground arith in
      ((lt, omega arith), frames-IsInTune (baud_clk_cnt t 0) qs pos (ground arith) tuned small)

  wrong-frames : (c : ℕ) (qs : List ℕ) → any_wrong mode (frames t mode c qs) ≡ any_misread mode qs
  wrong-frames c [] = refl
  wrong-frames c (x ∷ qs) =
      ap (λ b. bit_ne (tx_parity mode x false) (rx_parity mode x) || b)
        (wrong-frames (baud_clk_cnt t 0) qs)

  listen-talk :
      (qs ws : List ℕ) (c k d i : ℕ) (p e : Bool) (r : RxBlock)
      → (mode ≡ 1) ⊎ (mode ≡ 2)
      → 0 < t
      → t < 65536
      → 0 < t'
      → t' < 65536
      → IsTuned t t'
      → All IsByte qs
      → c < t
      → IsIdle t' ws e r
      → let s = block c s_idle k d i p true qs in
        let n = clocks (16 * t) (frames t mode c qs) in
        ((talk t mode n s).queue ≡ [])
        × ((talk t mode n s).regs.state ≡ s_idle)
        × IsIdle t' (ws ++ qs) (e || any_misread mode qs) (listen t' mode (wire t mode s) 0 n r)
  listen-talk qs ws c k d i p e r parity pos w pos' w' tuned small h idle =
      let s = block c s_idle k d i p true qs in
      let (sends, stops, empty) = talk-Sends t mode pos w parity qs c k d i p h in
      (
        empty,
        stops,
        rw (bytes-frames c qs, wrong-frames c qs) at
            (listen-frames t' mode (wire t mode s) (16 * t) (frames t mode c qs) 0 ws e r pos' w'
              (ground arith) (frames-IsInTune c qs pos h tuned small) sends idle),
      )

misread_odd : (qs : List ℕ) → any_misread 1 qs ≡ false
misread_odd [] = refl
misread_odd (x ∷ qs) = ground (arith, misread_odd qs)

-- A byte whose seven upper bits have an even number of ones among them.
abbrev pub any_even : List ℕ → Bool
any_even [] = false
any_even (x ∷ xs) = not (xor_bits (x / 2)) || any_even xs

misread_even : (qs : List ℕ) → All IsByte qs → any_misread 2 qs ≡ any_even qs
misread_even [] h = refl
misread_even (x ∷ qs) (lt, h) = ap₂ ◌||◌ (ground arith) (misread_even qs h)

-- What a receiver with odd parity, whatever it did before, gets from a transmitter with odd parity that
-- waits, on an idle wire, with bytes below 256 in its queue, whatever the counts of both baud clocks, if
-- their ticks take 1 to 65535 clocks and are close enough: once the transmitter has sent its queue and waits again, the receiver has
-- written exactly the bytes of that queue, in order, has reported no parity error, and waits too.
pub listen-talk_odd :
    (t t' : ℕ) (qs ws : List ℕ) (c k d i : ℕ) (p e : Bool) (r : RxBlock)
    → 0 < t
    → t < 65536
    → 0 < t'
    → t' < 65536
    → IsTuned t t'
    → All IsByte qs
    → c < t
    → IsIdle t' ws e r
    → let s = block c s_idle k d i p true qs in
      let n = clocks (16 * t) (frames t 1 c qs) in
      ((talk t 1 n s).queue ≡ [])
      × ((talk t 1 n s).regs.state ≡ s_idle)
      × IsIdle t' (ws ++ qs) e (listen t' 1 (wire t 1 s) 0 n r)
listen-talk_odd t t' qs ws c k d i p e r pos w pos' w' tuned small h idle =
    rw (misread_odd qs, or_false e) at
      (listen-talk t t' 1 qs ws c k d i p e r (inl refl) pos w pos' w' tuned small h idle)

-- The same with even parity on both sides: the bytes are received, the receiver waits, and its parity flip
-- flop is set exactly if it was set or one of the bytes has an even number of ones in its seven upper
-- bits.
pub listen-talk_even :
    (t t' : ℕ) (qs ws : List ℕ) (c k d i : ℕ) (p e : Bool) (r : RxBlock)
    → 0 < t
    → t < 65536
    → 0 < t'
    → t' < 65536
    → IsTuned t t'
    → All IsByte qs
    → c < t
    → IsIdle t' ws e r
    → let s = block c s_idle k d i p true qs in
      let n = clocks (16 * t) (frames t 2 c qs) in
      IsIdle t' (ws ++ qs) (e || any_even qs) (listen t' 2 (wire t 2 s) 0 n r)
listen-talk_even t t' qs ws c k d i p e r pos w pos' w' tuned small h idle =
    rw (misread_even qs small) at
      (listen-talk t t' 2 qs ws c k d i p e r (inr refl) pos w pos' w' tuned small h idle).2
