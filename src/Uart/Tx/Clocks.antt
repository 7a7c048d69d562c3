-- ===== src/Uart/Tx/Clocks.antt =====
-- The transmitter of hw/src/cmn/uart/uart_tx.v over the clocks of one state.
use Prim.Native.Nat.add
use fpga_nes.Prelude.{
  ℕ, zero, suc, ◌+◌, ◌-◌, ◌*◌, ◌<◌, ◌≡◌, ◌≢◌, refl, ap, ◌∙◌, Bool, true, false, List, arith,
}
use native.Mathlib.Decide.{dec_lt}
use fpga_nes.Uart.Baud.{SerialState, s_idle, s_start, s_data, s_parity, s_stop, low_bit}
use fpga_nes.Uart.Frame.{Level}
use fpga_nes.Uart.Tx.{TxBlock, tx_block_clock, talk, wire}

-- The transmitter, but in the clock in which a byte is done.
abbrev pub block : ℕ → SerialState → ℕ → ℕ → ℕ → Bool → Bool → List ℕ → TxBlock
block c st k d i p tx qs = record {
  baud_cnt = c;
  regs = record {
    state = st;
    baud_clk_tick_cnt = k;
    tx_data = d;
    data_bit_idx = i;
    parity_bit = p;
    tx = tx;
    tx_done_tick = false;
  };
  queue = qs;
}

-- The level that a state puts on the wire.
abbrev pub level : SerialState → ℕ → Bool → Bool
level s_start d p = false
level s_data d p = low_bit d
level s_parity d p = p
level _ d p = true

module _ (t mode : ℕ) where
  clock-quiet :
      (st : SerialState) (c k d i : ℕ) (p tx : Bool) (qs : List ℕ)
      → st ≢ s_idle
      → c + 1 < t
      → t < 65536
      → tx_block_clock t mode (block c st k d i p tx qs)
        ≡ block (c + 1) st k d i p (level st d p) qs
  unfolding tx_block_clock
  clock-quiet s_idle c k d i p tx qs busy h w = absurd (busy refl)
  clock-quiet s_start c k d i p tx qs busy h w = ground arith
  clock-quiet s_data c k d i p tx qs busy h w = ground arith
  clock-quiet s_parity c k d i p tx qs busy h w = ground arith
  clock-quiet s_stop c k d i p tx qs busy h w = ground arith

  clock-tick :
      (st : SerialState) (k d i : ℕ) (p tx : Bool) (qs : List ℕ)
      → st ≢ s_idle
      → 0 < t
      → k < 15
      → tx_block_clock t mode (block (t - 1) st k d i p tx qs)
        ≡ block 0 st (k + 1) d i p (level st d p) qs
  unfolding tx_block_clock
  clock-tick s_idle k d i p tx qs busy pos h = absurd (busy refl)
  clock-tick s_start k d i p tx qs busy pos h = ground arith
  clock-tick s_data k d i p tx qs busy pos h = ground arith
  clock-tick s_parity k d i p tx qs busy pos h = ground arith
  clock-tick s_stop k d i p tx qs busy pos h = ground arith

  pub talk-add : (n m : ℕ) (s : TxBlock) → talk t mode (n + m) s ≡ talk t mode m (talk t mode n s)
  unfolding talk
  talk-add zero m s = rw add.zero
  talk-add (suc n) m s = rw add.suc (talk-add n m (tx_block_clock t mode s))

  -- `n` clocks lead from `s` to `s'`, and put `bit` on the wire.
  abbrev pub Says : ℕ → TxBlock → Bool → TxBlock → Type 0
  Says n s bit s' = (talk t mode n s ≡ s') × Level (λ i. wire t mode s (suc i)) 0 n bit

  -- The levels of a wire, from those after some clocks.
  pub wire-talk :
      (n x y : ℕ) (s : TxBlock) {s' : TxBlock}
      → talk t mode n s ≡ s'
      → x ≡ n + y
      → wire t mode s x ≡ wire t mode s' y
  wire-talk n x y s {s'} p e =
      ap (wire t mode s) e ∙ ap (λ u. u.regs.tx) (talk-add n y s) ∙ ap (λ u. wire t mode u y) p

  pub Says-trans :
      (n m sum : ℕ) (s : TxBlock) {s' s'' : TxBlock} {bit : Bool}
      → Says n s bit s'
      → Says m s' bit s''
      → sum ≡ n + m
      → Says sum s bit s''
  Says-trans n m sum s {s'} (p, high) (q, high') e = (
    ap (λ (x : ℕ). talk t mode x s) e ∙ talk-add n m s ∙ ap (talk t mode m) p ∙ q,
    λ i h. elim (dec_lt i n) [
      | yes lt ↦ high i lt
      | no ge ↦
          wire-talk n (suc (0 + i)) (suc (0 + (i - n))) s p (omega arith)
          ∙ high' (i - n) (omega (arith, e))
    ],
  )

  say-one :
      (s : TxBlock) {s' : TxBlock} {bit : Bool}
      → tx_block_clock t mode s ≡ s'
      → s'.regs.tx ≡ bit
      → Says 1 s bit s'
  unfolding talk
  say-one s p e = (
    p,
    λ i h.
        ap (λ (x : ℕ). (talk t mode x (tx_block_clock t mode s)).regs.tx)
          (let z : 0 + i ≡ 0 = omega arith in z)
        ∙ ap (λ u. u.regs.tx) p
        ∙ e,
  )

  -- The clocks up to a tick, by the clock of the tick.
  pub say-clock :
      (st : SerialState) (n c k d i : ℕ) (p tx : Bool) (qs : List ℕ) {s : TxBlock}
      → st ≢ s_idle
      → c + n + 1 ≡ t
      → t < 65536
      → ((old : Bool) → tx_block_clock t mode (block (t - 1) st k d i p old qs) ≡ s)
      → s.regs.tx ≡ level st d p
      → Says (n + 1) (block c st k d i p tx qs) (level st d p) s
  say-clock st zero c k d i p tx qs busy h w q e =
      say-one (block c st k d i p tx qs)
        (ap (λ (x : ℕ). tx_block_clock t mode (block x st k d i p tx qs)) (omega arith) ∙ q tx) e
  say-clock st (suc n) c k d i p tx qs busy h w q e =
      Says-trans 1 (n + 1) (suc n + 1) (block c st k d i p tx qs)
        (say-one (block c st k d i p tx qs) (clock-quiet st c k d i p tx qs busy (omega arith) w)
          refl)
        (say-clock st n (c + 1) k d i p (level st d p) qs busy (omega arith) w q e) (omega arith)

  pub say-tick :
      (st : SerialState) (n c k d i : ℕ) (p tx : Bool) (qs : List ℕ)
      → st ≢ s_idle
      → c + n + 1 ≡ t
      → t < 65536
      → 0 < t
      → k < 15
      → Says
          (n + 1)
          (block c st k d i p tx qs)
          (level st d p)
          (block 0 st (k + 1) d i p (level st d p) qs)
  say-tick st n c k d i p tx qs busy h w pos lt =
      say-clock st n c k d i p tx qs busy h w (λ old. clock-tick st k d i p old qs busy pos lt) refl

  -- The last `m + 1` ticks of a state.
  pub say-state :
      (st : SerialState) (m k d i : ℕ) (p tx : Bool) (qs : List ℕ) {s : TxBlock}
      → st ≢ s_idle
      → k + m ≡ 15
      → 0 < t
      → t < 65536
      → ((old : Bool) → tx_block_clock t mode (block (t - 1) st 15 d i p old qs) ≡ s)
      → s.regs.tx ≡ level st d p
      → Says (m * t + t) (block 0 st k d i p tx qs) (level st d p) s
  say-state st zero k d i p tx qs {s} busy h pos w q e =
      let last : k ≡ 15 = omega arith in
      let (p', high) =
        say-clock st (t - 1) 0 k d i p tx qs busy (omega arith) w
          (λ old.
            ap (λ (x : ℕ). tx_block_clock t mode (block (t - 1) st x d i p old qs)) last ∙ q old)
          e in
      (
        ap (λ (x : ℕ). talk t mode x (block 0 st k d i p tx qs)) (omega arith) ∙ p',
        λ j lt. high j (omega arith),
      )
  say-state st (suc m) k d i p tx qs busy h pos w q e =
      Says-trans (t - 1 + 1) (m * t + t) (suc m * t + t) (block 0 st k d i p tx qs)
        (say-tick st (t - 1) 0 k d i p tx qs busy (omega arith) w pos (omega arith))
        (say-state st m (k + 1) d i p (level st d p) qs busy (omega arith) pos w q e) (grind arith)
