-- ===== src/Uart/Rx/Clocks.antt =====
-- The receiver of hw/src/cmn/uart/uart_rx.v over the clocks of one state.
use Prim.Native.Nat.add
use fpga_nes.Prelude.{
  ℕ, zero, suc, ◌+◌, ◌-◌, ◌*◌, ◌≤◌, ◌<◌, ◌≡◌, ◌≢◌, refl, ap, ap₂, ◌∙◌, Bool, false, if◌then◌else◌,
  List, [], ◌∷◌, ◌++◌, arith, ◌||◌,
}
use fpga_nes.Uart.Baud.{SerialState, s_idle, s_start, s_data, s_parity, s_stop}
use fpga_nes.Uart.Rx.{RxBlock, rx_block_clock, listen}

-- The receiver between its pulses.
abbrev pub block : ℕ → SerialState → ℕ → ℕ → ℕ → Bool → List ℕ → Bool → RxBlock
block c st k d i rx ws e = record {
  baud_cnt = c;
  regs = record {
    state = st;
    oversample_tick_cnt = k;
    rx_data = d;
    data_bit_idx = i;
    done_tick = false;
    parity_err = false;
    rx = rx;
  };
  written = ws;
  rx_parity_err = e;
}

-- The same in the clock of a pulse: a byte is there, its parity is wrong.
abbrev pub pulse : Bool → Bool → RxBlock → RxBlock
pulse done wrong s = record s { regs = record s.regs { done_tick = done; parity_err = wrong } }

-- The count at which the state is left.
abbrev pub last_cnt : SerialState → ℕ
last_cnt s_start = 7
last_cnt _ = 15

module _ (t mode : ℕ) where
  -- A clock without a tick, and one with a tick that does not end the state.
  clock-quiet :
      (st : SerialState) (c k d i : ℕ) (old new e : Bool) (ws : List ℕ)
      → st ≢ s_idle
      → c + 1 < t
      → t < 65536
      → rx_block_clock t mode new (block c st k d i old ws e) ≡ block (c + 1) st k d i new ws e
  unfolding rx_block_clock
  clock-quiet s_idle c k d i old new e ws busy h w = absurd (busy refl)
  clock-quiet s_start c k d i old new e ws busy h w = ground arith
  clock-quiet s_data c k d i old new e ws busy h w = ground arith
  clock-quiet s_parity c k d i old new e ws busy h w = ground arith
  clock-quiet s_stop c k d i old new e ws busy h w = ground arith

  clock-tick :
      (st : SerialState) (k d i : ℕ) (old new e : Bool) (ws : List ℕ)
      → st ≢ s_idle
      → 0 < t
      → k < last_cnt st
      → rx_block_clock t mode new (block (t - 1) st k d i old ws e)
        ≡ block 0 st (k + 1) d i new ws e
  unfolding rx_block_clock
  clock-tick s_idle k d i old new e ws busy pos h = absurd (busy refl)
  clock-tick s_start k d i old new e ws busy pos h = ground arith
  clock-tick s_data k d i old new e ws busy pos h = ground arith
  clock-tick s_parity k d i old new e ws busy pos h = ground arith
  clock-tick s_stop k d i old new e ws busy pos h = ground arith

  clock-pulse :
      (st : SerialState) (c k d i : ℕ) (old new done wrong e : Bool) (ws : List ℕ)
      → rx_block_clock t mode new (pulse done wrong (block c st k d i old ws e))
        ≡ rx_block_clock t mode new
            (block c st k d i old (if done then ws ++ (d ∷ []) else ws) (e || wrong))
  unfolding rx_block_clock
  clock-pulse s_idle c k d i old new done wrong e ws = ground arith
  clock-pulse s_start c k d i old new done wrong e ws = ground arith
  clock-pulse s_data c k d i old new done wrong e ws = ground arith
  clock-pulse s_parity c k d i old new done wrong e ws = ground arith
  clock-pulse s_stop c k d i old new done wrong e ws = ground arith

  module _ (line : ℕ → Bool) where
    pub listen-add :
        (at n m : ℕ) (s : RxBlock)
        → listen t mode line at (n + m) s
          ≡ listen t mode line (at + n) m (listen t mode line at n s)
    unfolding listen
    listen-add at zero m s = rw add.zero (ap (λ (x : ℕ). listen t mode line x m s) (omega arith))
    listen-add at (suc n) m s = rw add.suc (
        listen-add (suc at) n m (rx_block_clock t mode (line at) s)
        ∙ ap
            (λ (x : ℕ).
              listen t mode line x m
                (listen t mode line (suc at) n (rx_block_clock t mode (line at) s)))
            (omega arith))

    -- A pulse is as good as its effect, from the next clock on.
    pub hear-pulse :
        (st : SerialState) (at n c k d i : ℕ) (rx done wrong e : Bool) (ws : List ℕ)
        → 0 < n
        → listen t mode line at n (pulse done wrong (block c st k d i rx ws e))
          ≡ listen t mode line at n
              (block c st k d i rx (if done then ws ++ (d ∷ []) else ws) (e || wrong))
    unfolding listen
    hear-pulse st at zero c k d i rx done wrong e ws h = absurd (omega arith)
    hear-pulse st at (suc n) c k d i rx done wrong e ws h =
        ap (listen t mode line (suc at) n) (clock-pulse st c k d i rx (line at) done wrong e ws)

    -- The receiver, which has taken in the level of clock `at`, is `s'` after `n` more clocks.
    abbrev pub Hears : ℕ → ℕ → RxBlock → RxBlock → Type 0
    Hears at n s s' = listen t mode line (suc at) n s ≡ s'

    pub Hears-trans :
        (at n at' m sum : ℕ) (s : RxBlock) {s' s'' : RxBlock}
        → Hears at n s s'
        → Hears at' m s' s''
        → at' ≡ at + n
        → sum ≡ n + m
        → Hears at sum s s''
    Hears-trans at n at' m sum s p q e f =
        ap (λ (x : ℕ). listen t mode line (suc at) x s) f
        ∙ listen-add (suc at) n m s
        ∙ ap₂ (λ (x : ℕ) u. listen t mode line x m u) (omega (arith, e)) p
        ∙ q

    -- Clocks without a tick.
    pub hear-quiet :
        (st : SerialState) (at n c k d i : ℕ) (e : Bool) (ws : List ℕ)
        → st ≢ s_idle
        → c + n < t
        → t < 65536
        → Hears at n (block c st k d i (line at) ws e) (block (c + n) st k d i (line (at + n)) ws e)
    unfolding listen
    hear-quiet st at zero c k d i e ws busy h w =
        ap₂ (λ (x y : ℕ). block x st k d i (line y) ws e) (omega arith) (omega arith)
    hear-quiet st at (suc n) c k d i e ws busy h w =
        ap (listen t mode line (suc (suc at)) n)
          (clock-quiet st c k d i (line at) (line (suc at)) e ws busy (omega arith) w)
        ∙ hear-quiet st (suc at) n (c + 1) k d i e ws busy (omega arith) w
        ∙ ap₂ (λ (x y : ℕ). block x st k d i (line y) ws e) (omega arith) (omega arith)

    -- `n` clocks without a tick and the clock of the tick.
    pub hear-clock :
        (st : SerialState) (at n c k d i : ℕ) (e : Bool) (ws : List ℕ) {s : RxBlock}
        → st ≢ s_idle
        → c + n + 1 ≡ t
        → t < 65536
        → rx_block_clock t mode (line (suc (at + n))) (block (t - 1) st k d i (line (at + n)) ws e)
          ≡ s
        → Hears at (n + 1) (block c st k d i (line at) ws e) s
    unfolding listen
    hear-clock st at n c k d i e ws busy h w q =
        Hears-trans at n (at + n) 1 (n + 1) (block c st k d i (line at) ws e)
          (hear-quiet st at n c k d i e ws busy (omega arith) w)
          (ap
              (λ (x : ℕ).
                rx_block_clock t mode (line (suc (at + n))) (block x st k d i (line (at + n)) ws e))
              (omega arith)
            ∙ q)
          refl refl

    -- The clocks up to a tick that does not end the state.
    pub hear-tick :
        (st : SerialState) (at n c k d i : ℕ) (e : Bool) (ws : List ℕ)
        → st ≢ s_idle
        → c + n + 1 ≡ t
        → t < 65536
        → k < last_cnt st
        → Hears at
            (n + 1)
            (block c st k d i (line at) ws e)
            (block 0 st (k + 1) d i (line (at + (n + 1))) ws e)
    hear-tick st at n c k d i e ws busy h w lt = hear-clock st at n c k d i e ws busy h w (
        clock-tick st k d i (line (at + n)) (line (suc (at + n))) e ws busy (omega arith) lt
        ∙ ap (λ (y : ℕ). block 0 st (k + 1) d i (line y) ws e) (omega arith))

    -- `n` such ticks.
    pub hear-ticks :
        (st : SerialState) (n at k d i : ℕ) (e : Bool) (ws : List ℕ)
        → st ≢ s_idle
        → 0 < t
        → t < 65536
        → k + n ≤ last_cnt st
        → Hears at
            (n * t)
            (block 0 st k d i (line at) ws e)
            (block 0 st (k + n) d i (line (at + n * t)) ws e)
    unfolding listen
    hear-ticks st zero at k d i e ws busy h w lt =
        ap (λ (x : ℕ). listen t mode line (suc at) x (block 0 st k d i (line at) ws e))
          (let z : 0 * t ≡ 0 = omega arith in z)
        ∙ ap₂ (λ (x y : ℕ). block 0 st x d i (line y) ws e) (omega arith) (omega arith)
    hear-ticks st (suc n) at k d i e ws busy h w lt =
        Hears-trans at (t - 1 + 1) (at + (t - 1 + 1)) (n * t) (suc n * t)
          (block 0 st k d i (line at) ws e)
          (hear-tick st at (t - 1) 0 k d i e ws busy (omega arith) w (omega arith))
          (hear-ticks st n (at + (t - 1 + 1)) (k + 1) d i e ws busy h w (omega arith)
            ∙ ap₂ (λ (x y : ℕ). block 0 st x d i (line y) ws e) (omega arith) (grind arith))
          refl (grind arith)

    -- The last `m + 1` ticks of a state, the one that ends it among them.
    pub hear-state :
        (st : SerialState) (m at k d i : ℕ) (e : Bool) (ws : List ℕ) {s : RxBlock}
        → st ≢ s_idle
        → k + m ≡ last_cnt st
        → 0 < t
        → t < 65536
        → ((at' : ℕ)
            → at' + 1 ≡ at + (m * t + t)
            → rx_block_clock t mode
                (line (suc at'))
                (block (t - 1) st (last_cnt st) d i (line at') ws e)
              ≡ s)
        → Hears at (m * t + t) (block 0 st k d i (line at) ws e) s
    hear-state st m at k d i e ws {s} busy le h w q =
        Hears-trans at (m * t) (at + m * t) (t - 1 + 1) (m * t + t)
          (block 0 st k d i (line at) ws e)
          (hear-ticks st m at k d i e ws busy h w (omega (arith, le)))
          (ap
              (λ (x : ℕ).
                listen t mode line (suc (at + m * t)) (t - 1 + 1)
                  (block 0 st x d i (line (at + m * t)) ws e))
              le
            ∙ hear-clock st (at + m * t) (t - 1) 0 (last_cnt st) d i e ws busy (omega arith) w
                (q (at + m * t + (t - 1)) (omega arith)))
          refl (omega arith)
