-- ===== src/Uart/Tx/Bits.antt =====
-- A byte of the transmitter of hw/src/cmn/uart/uart_tx.v on the wire, bit by bit.
use fpga_nes.Prelude.{
  ℕ, suc, ◌+◌, ◌-◌, ◌*◌, ◌/◌, ◌<◌, ◌≡◌, ◌≢◌, refl, ap, ◌∙◌, Bool, true, false, List, [], ◌∷◌, arith,
  length,
}
use fpga_nes.Uart.Baud.{SerialState, s_idle, s_start, s_data, s_parity, s_stop, low_bit}
use fpga_nes.Uart.Frame.{Levels, bit_at, bits_after_start, Levels-shift}
use fpga_nes.Uart.Tx.{TxBlock, tx_block_clock, talk, wire}
use fpga_nes.Uart.Tx.Clocks.{
  block, level, talk-add, Says, Says-trans, wire-talk, say-state, say-tick,
}

-- In the clock in which a byte is done.
abbrev pub done : TxBlock → TxBlock
done s = record s { regs = record s.regs { tx_done_tick = true } }

module _ (t mode : ℕ) (pos : 0 < t) (w : t < 65536) where
  pub say-start :
      (c d i : ℕ) (p tx : Bool) (qs : List ℕ)
      → c < t
      → Says t mode
          (16 * t - c)
          (block c s_start 0 d i p tx qs)
          false
          (block 0 s_data 0 d 0 p false qs)
  unfolding tx_block_clock
  say-start c d i p tx qs h =
      Says-trans t mode (t - c - 1 + 1) (14 * t + t) (16 * t - c) (block c s_start 0 d i p tx qs)
        (say-tick t mode s_start (t - c - 1) c 0 d i p tx qs (λ q. cc) (omega arith) w pos
          (omega arith))
        (say-state t mode s_start 14 1 d i p false qs (λ q. cc) refl pos w (λ old. ground arith)
          refl)
        (omega arith)

  module _ (p tx : Bool) (qs : List ℕ) where
    -- A state of 16 ticks.
    say-bit :
        (st : SerialState) (d i : ℕ) {s : TxBlock}
        → st ≢ s_idle
        → ((old : Bool) → tx_block_clock t mode (block (t - 1) st 15 d i p old qs) ≡ s)
        → s.regs.tx ≡ level st d p
        → Says t mode (16 * t) (block 0 st 0 d i p tx qs) (level st d p) s
    say-bit st d i busy q e =
        let (ends, high) = say-state t mode st 15 0 d i p tx qs busy refl pos w q e in
        (
          ap (λ (x : ℕ). talk t mode x (block 0 st 0 d i p tx qs)) (omega arith) ∙ ends,
          λ j lt. high j (omega arith),
        )

    say-data :
        (d i : ℕ)
        → i < 7
        → Says t mode
            (16 * t)
            (block 0 s_data 0 d i p tx qs)
            (low_bit d)
            (block 0 s_data 0 (d / 2) (i + 1) p (low_bit d) qs)
    unfolding tx_block_clock
    say-data d i h = say-bit s_data d i (λ q. cc) (λ old. ground arith) refl

    say-last :
        (d : ℕ)
        → mode ≢ 0
        → Says t mode
            (16 * t)
            (block 0 s_data 0 d 7 p tx qs)
            (low_bit d)
            (block 0 s_parity 0 (d / 2) 0 p (low_bit d) qs)
    unfolding tx_block_clock
    say-last d some_parity = say-bit s_data d 7 (λ q. cc) (λ old. ground arith) refl

    say-parity :
        (d i : ℕ)
        → Says t mode (16 * t) (block 0 s_parity 0 d i p tx qs) p (block 0 s_stop 0 d i p p qs)
    unfolding tx_block_clock
    say-parity d i = say-bit s_parity d i (λ q. cc) (λ old. ground arith) refl

    say-stop :
        (d i : ℕ)
        → Says t mode
            (16 * t)
            (block 0 s_stop 0 d i p tx qs)
            true
            (done (block 0 s_idle 0 d i p true qs))
    unfolding tx_block_clock
    say-stop d i = say-bit s_stop d i (λ q. cc) (λ old. ground arith) refl

  -- States of 16 ticks that put these bits on the wire.
  abbrev pub Spells : TxBlock → List Bool → TxBlock → Type 0
  Spells s bits s' =
      (talk t mode (length bits * (16 * t)) s ≡ s')
      × Levels (λ i. wire t mode s (suc i)) 0 (16 * t) bits

  spell-cons :
      (s s' : TxBlock) (x : Bool) (xs : List Bool) {s'' : TxBlock}
      → Says t mode (16 * t) s x s'
      → Spells s' xs s''
      → Spells s (x ∷ xs) s''
  spell-cons s s' x xs (p, high) (q, levels) = (
    ap (λ (n : ℕ). talk t mode n s) (grind arith)
        ∙ talk-add t mode (16 * t) (length xs * (16 * t)) s
        ∙ ap (talk t mode (length xs * (16 * t))) p
        ∙ q,
    (
      high,
      Levels-shift (λ i. wire t mode s' (suc i)) (λ i. wire t mode s (suc i)) (16 * t)
          (λ i. wire-talk t mode (16 * t) (suc (16 * t + i)) (suc i) s p (omega arith)) 0
          (0 + 16 * t) (16 * t) xs (omega arith) levels,
    ),
  )

  -- A data bit but the last, of weight `wt`.
  spell-data :
      (x wt wt' i : ℕ) (p tx : Bool) (qs : List ℕ) (xs : List Bool) {s : TxBlock}
      → i < 7
      → x / wt / 2 ≡ x / wt'
      → Spells (block 0 s_data 0 (x / wt') (i + 1) p (bit_at wt x) qs) xs s
      → Spells (block 0 s_data 0 (x / wt) i p tx qs) (bit_at wt x ∷ xs) s
  spell-data x wt wt' i p tx qs xs h e rest =
      let s = block 0 s_data 0 (x / wt') (i + 1) p (bit_at wt x) qs in
      let (ends, high) = say-data p tx qs (x / wt) i h in
      spell-cons (block 0 s_data 0 (x / wt) i p tx qs) s (bit_at wt x) xs
        (ends ∙ ap (λ (d : ℕ). block 0 s_data 0 d (i + 1) p (bit_at wt x) qs) e, high) rest

  spell-last :
      (x : ℕ) (p tx : Bool) (qs : List ℕ)
      → mode ≢ 0
      → Spells
          (block 0 s_data 0 (x / 128) 7 p tx qs)
          (bit_at 128 x ∷ p ∷ true ∷ [])
          (done (block 0 s_idle 0 (x / 128 / 2) 0 p true qs))
  unfolding talk
  spell-last x p tx qs some_parity =
      spell-cons (block 0 s_data 0 (x / 128) 7 p tx qs)
        (block 0 s_parity 0 (x / 128 / 2) 0 p (bit_at 128 x) qs) (bit_at 128 x) (p ∷ true ∷ [])
        (say-last p tx qs (x / 128) some_parity)
        (spell-cons (block 0 s_parity 0 (x / 128 / 2) 0 p (bit_at 128 x) qs)
          (block 0 s_stop 0 (x / 128 / 2) 0 p p qs) p (true ∷ [])
          (say-parity p (bit_at 128 x) qs (x / 128 / 2) 0)
          (spell-cons (block 0 s_stop 0 (x / 128 / 2) 0 p p qs)
            (done (block 0 s_idle 0 (x / 128 / 2) 0 p true qs)) true []
            (say-stop p p qs (x / 128 / 2) 0)
            (
              ap (λ (n : ℕ). talk t mode n (done (block 0 s_idle 0 (x / 128 / 2) 0 p true qs)))
                  (let z : 0 * (16 * t) ≡ 0 = omega arith in z),
              tt,
            )))

  -- The bits after the start bit.
  pub spell-byte :
      (x : ℕ) (p tx : Bool) (qs : List ℕ)
      → mode ≢ 0
      → Spells
          (block 0 s_data 0 (x / 1) 0 p tx qs)
          (bits_after_start x p)
          (done (block 0 s_idle 0 (x / 128 / 2) 0 p true qs))
  spell-byte x p tx qs some_parity =
      let b128 = bit_at 128 x ∷ p ∷ true ∷ [] in
      let b64 = bit_at 64 x ∷ b128 in
      let b32 = bit_at 32 x ∷ b64 in
      let b16 = bit_at 16 x ∷ b32 in
      let b8 = bit_at 8 x ∷ b16 in
      let b4 = bit_at 4 x ∷ b8 in
      spell-data x 1 2 0 p tx qs (bit_at 2 x ∷ b4) (omega arith) (omega arith) (
        spell-data x 2 4 1 p (bit_at 1 x) qs b4 (omega arith) (omega arith) (
          spell-data x 4 8 2 p (bit_at 2 x) qs b8 (omega arith) (omega arith) (
            spell-data x 8 16 3 p (bit_at 4 x) qs b16 (omega arith) (omega arith) (
              spell-data x 16 32 4 p (bit_at 8 x) qs b32 (omega arith) (omega arith) (
                spell-data x 32 64 5 p (bit_at 16 x) qs b64 (omega arith) (omega arith) (
                  spell-data x 64 128 6 p (bit_at 32 x) qs b128 (omega arith) (omega arith)
                    (spell-last x p (bit_at 64 x) qs some_parity)))))))
