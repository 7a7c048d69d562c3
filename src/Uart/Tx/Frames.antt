-- ===== src/Uart/Tx/Frames.antt =====
-- The bytes that the transmitter of hw/src/cmn/uart/uart_tx.v puts on the wire.
use fpga_nes.Prelude.{
  ℕ, zero, suc, ◌+◌, ◌-◌, ◌*◌, ◌/◌, ◌<◌, ◌≡◌, ◌≢◌, ◌⊎◌, inl, inr, refl, ap, ◌∙◌, Bool, true, false,
  List, [], ◌∷◌, arith,
}
use fpga_nes.Uart.Baud.{baud_clk_cnt, baud_clk_tick, tick_cnt, s_idle, s_start, s_data}
use fpga_nes.Uart.Frame.{
  Wire, Byte, Level, IsFrame, Sends, clocks, bits_after_start, Level-shift, Levels-shift,
  Sends-shift,
}
use fpga_nes.Uart.Tx.{tx_parity, tx_block_clock, talk, wire}
use fpga_nes.Uart.Tx.Clocks.{block, talk-add, wire-talk}
use fpga_nes.Uart.Tx.Bits.{done, say-start, spell-byte}

-- The bytes of the queue on the wire, by the count of the baud clock: two idle clocks before each start
-- bit, which is shorter than 16 ticks by what of the first tick has passed.
abbrev pub frames : ℕ → ℕ → ℕ → List ℕ → List Byte
frames t mode c [] = []
frames t mode c (x ∷ xs) =
    record {
      idle_clocks = 2;
      start_clocks = 16 * t - baud_clk_cnt t c;
      byte = x;
      parity = tx_parity mode x false;
    }
    ∷ frames t mode (baud_clk_cnt t 0) xs

Level-two : (f : Wire) {bit : Bool} → f 0 ≡ bit → f 1 ≡ bit → Level f 0 2 bit
Level-two f p q zero h = p
Level-two f p q (suc zero) h = q
Level-two f p q (suc (suc i)) h = absurd (omega arith)

module _ (t mode : ℕ) where
  clock-idle :
      (c k d i x : ℕ) (p tx : Bool) (qs : List ℕ)
      → (mode ≡ 1) ⊎ (mode ≡ 2)
      → tx_block_clock t mode (block c s_idle k d i p tx (x ∷ qs))
        ≡ block (baud_clk_cnt t c) s_start 0 x i (tx_parity mode x false) true (x ∷ qs)
  unfolding tx_block_clock
  clock-idle c k d i x p tx qs (inl e) = rw e (ground arith)
  clock-idle c k d i x p tx qs (inr e) = rw e (ground arith)

  clock-done :
      (c k d i x : ℕ) (p tx : Bool) (qs : List ℕ)
      → tx_block_clock t mode (done (block c s_idle k d i p tx (x ∷ qs)))
        ≡ block (baud_clk_cnt t c) s_idle (tick_cnt (baud_clk_tick t c) k) d i p true qs
  unfolding tx_block_clock
  clock-done c k d i x p tx qs = ground arith

  module _ (pos : 0 < t) (w : t < 65536) (even_or_odd : (mode ≡ 1) ⊎ (mode ≡ 2)) where
    some_parity : mode ≢ 0
    some_parity = ground arith

    -- One byte of the queue.
    pub talk-byte :
        (c k d i x : ℕ) (p : Bool) (qs : List ℕ)
        → c < t
        → let s = block c s_idle k d i p true (x ∷ qs) in
          let a = 16 * t - baud_clk_cnt t c in
          (talk t mode (2 + (a + 10 * (16 * t))) s
            ≡ block
                (baud_clk_cnt t 0)
                s_idle
                (tick_cnt (baud_clk_tick t 0) 0)
                (x / 128 / 2)
                0
                (tx_parity mode x false)
                true
                qs)
          × Level (wire t mode s) 0 2 true
          × IsFrame (wire t mode s) 2 a (16 * t) x (tx_parity mode x false)
    unfolding talk
    talk-byte c k d i x p qs h =
        let s = block c s_idle k d i p true (x ∷ qs) in
        let p' = tx_parity mode x false in
        let c' = baud_clk_cnt t c in
        let below : c' < t = ground arith in
        let a : ℕ = 16 * t - c' in
        let s1 = block c' s_start 0 x i p' true (x ∷ qs) in
        let s2 = block 0 s_data 0 (x / 1) 0 p' false (x ∷ qs) in
        let s3 = done (block 0 s_idle 0 (x / 128 / 2) 0 p' true (x ∷ qs)) in
        let first : talk t mode 1 s ≡ s1 = clock-idle c k d i x p true qs even_or_odd in
        let (starts, low) = say-start t mode pos w c' x i p' true (x ∷ qs) below in
        let (spells, levels) = spell-byte t mode pos w x p' false (x ∷ qs) some_parity in
        let begun : talk t mode (1 + a) s ≡ s2 =
          talk-add t mode 1 a s
          ∙ ap (talk t mode a) first
          ∙ starts
          ∙ ap (λ (y : ℕ). block 0 s_data 0 y 0 p' false (x ∷ qs)) (omega arith) in
        (
          ap (λ (y : ℕ). talk t mode y s)
                (let n : 2 + (a + 10 * (16 * t)) ≡ 1 + a + (10 * (16 * t) + 1) = omega arith in n)
              ∙ talk-add t mode (1 + a) (10 * (16 * t) + 1) s
              ∙ ap (talk t mode (10 * (16 * t) + 1)) begun
              ∙ talk-add t mode (10 * (16 * t)) 1 s2
              ∙ ap (talk t mode 1) spells
              ∙ clock-done 0 0 (x / 128 / 2) 0 x p' true qs,
          Level-two (wire t mode s) refl (ap (λ u. u.regs.tx) first),
          (
            Level-shift (λ j. wire t mode s1 (suc j)) (wire t mode s) 2
                (λ j. wire-talk t mode 1 (2 + j) (suc j) s first (omega arith)) 0 2 a false refl
                low,
            Levels-shift (λ j. wire t mode s2 (suc j)) (wire t mode s) (2 + a)
                (λ j. wire-talk t mode (1 + a) (2 + a + j) (suc j) s begun (omega arith)) 0 (2 + a)
                (16 * t) (bits_after_start x p') (omega arith) levels,
          ),
        )

    -- The queue of a transmitter that waits, with an idle wire, in a parity mode 1 or 2 and with 1 to 65535
    -- clocks to a tick, whatever the count of its baud clock: its bytes go over the wire, in order, each
    -- after two idle clocks, with a start bit of at most 16 ticks and other bits of 16 ticks; after these
    -- clocks the queue is empty and it waits again.
    pub talk-Sends :
        (qs : List ℕ) (c k d i : ℕ) (p : Bool)
        → c < t
        → let s = block c s_idle k d i p true qs in
          let fs = frames t mode c qs in
          Sends (wire t mode s) (16 * t) 0 fs
          × ((talk t mode (clocks (16 * t) fs) s).regs.state ≡ s_idle)
          × ((talk t mode (clocks (16 * t) fs) s).queue ≡ [])
    unfolding talk
    talk-Sends [] c k d i p h = (tt, refl, refl)
    talk-Sends (x ∷ qs) c k d i p h =
        let s = block c s_idle k d i p true (x ∷ qs) in
        let p' = tx_parity mode x false in
        let n : ℕ = 2 + (16 * t - baud_clk_cnt t c + 10 * (16 * t)) in
        let c' = baud_clk_cnt t 0 in
        let k' = tick_cnt (baud_clk_tick t 0) 0 in
        let rest = frames t mode c' qs in
        let s' = block c' s_idle k' (x / 128 / 2) 0 p' true qs in
        let (next, gap, frame) = talk-byte c k d i x p qs h in
        let (sends, stops, empty) = talk-Sends qs c' k' (x / 128 / 2) 0 p' (ground arith) in
        let after : talk t mode (clocks (16 * t) (frames t mode c (x ∷ qs))) s
            ≡ talk t mode (clocks (16 * t) rest) s' =
          ap (λ (y : ℕ). talk t mode y s)
            (let z : clocks (16 * t) (frames t mode c (x ∷ qs)) ≡ n + clocks (16 * t) rest =
                omega arith in
              z)
          ∙ talk-add t mode n (clocks (16 * t) rest) s
          ∙ ap (talk t mode (clocks (16 * t) rest)) next in
        (
          (
            gap,
            frame,
            Sends-shift (wire t mode s') (wire t mode s) n
                (λ j. wire-talk t mode n (n + j) j s next refl) 0 n (16 * t) rest (omega arith)
                sends,
          ),
          ap (λ u. u.regs.state) after ∙ stops,
          ap (λ u. u.queue) after ∙ empty,
        )
