-- ===== src/Uart/Rx/Frames.antt =====
-- The receiver of hw/src/cmn/uart/uart_rx.v over a byte on its input.
use fpga_nes.Prelude.{
  ℕ, suc, ◌+◌, ◌-◌, ◌*◌, ◌<◌, ◌≡◌, ◌≢◌, refl, ap, ap₂, ◌∙◌, Bool, true, false, ◌||◌, List, [], ◌∷◌,
  ◌++◌, arith, All, append-nil, append_assoc,
}
use mathlib.Core.List.{map}
use fpga_nes.Uart.Baud.{baud_clk_cnt, s_idle, s_data}
use fpga_nes.Uart.Frame.{Wire, Byte, Sends, clocks, IsFrame, Level-at, bit_at}
use fpga_nes.Uart.Rx.{RxBlock, listen, rx_parity, bit_ne}
use fpga_nes.Uart.Rx.Clocks.{block, pulse, listen-add, hear-pulse}
use fpga_nes.Uart.Rx.Samples.{IsIdle, or_false, IsIdle-listen, hear-edge, hear-rest}
use fpga_nes.Uart.Rx.Tuned.{IsInTune, shifted, data_bits, IsSampled, IsFrame-IsSampled}

-- The parity bit of one of the bytes is not the one that the receiver expects.
abbrev pub any_wrong : ℕ → List Byte → Bool
any_wrong mode [] = false
any_wrong mode (f ∷ fs) = bit_ne f.parity (rx_parity mode f.byte) || any_wrong mode fs

or_assoc : (a b c : Bool) → ((a || b) || c) ≡ (a || (b || c))
or_assoc true b c = refl
or_assoc false b c = refl

module _ (t mode : ℕ) (line : Wire) where
  -- From the falling edge to the pulse at the end of the stop bit.
  hear-byte :
      (at from byte n c k d i : ℕ) (parity e : Bool) (ws : List ℕ)
      → 0 < t
      → t < 65536
      → mode ≢ 0
      → byte < 256
      → c < t
      → d < 256
      → line at ≡ false
      → from ≡ suc at + (8 * t - baud_clk_cnt t (baud_clk_cnt t c))
      → 0 < n
      → IsSampled t line from byte parity (suc from + 160 * t + n)
      → listen t mode line at (from + 1 - at + (160 * t + n)) (block c s_idle k d i true ws e)
        ≡ listen t mode line (suc from + 160 * t) n (
            block 0 s_idle 0 byte 7 true
              (ws ++ (byte ∷ []))
              (e || bit_ne parity (rx_parity mode byte)))
  hear-byte at from byte n c k d i parity e ws pos w some_parity range lt small low start some
        (levels, level8, level9, high) =
      let e' = λ (x : ℕ). e || bit_ne parity (rx_parity mode x) in
      listen-add t mode line at (from + 1 - at) (160 * t + n) (block c s_idle k d i true ws e)
      ∙ ap₂ (λ (x : ℕ) s. listen t mode line x (160 * t + n) s) (omega (arith, start))
          (hear-edge t mode line at from c k d i e ws w pos lt low start)
      ∙ listen-add t mode line (suc from) (160 * t) n (block 0 s_data 0 d 0 (line from) ws e)
      ∙ ap (listen t mode line (suc from + 160 * t) n) (
          hear-rest t mode line w pos (data_bits byte) (bit_at 128 byte) parity e from d ws refl
            some_parity levels level8 level9
          ∙ ap₂ (λ (x : ℕ) bit. pulse true false (block 0 s_idle 0 x 7 bit ws (e' x)))
              (shifted d byte small range) (high (from + 160 * t) (omega arith) (omega arith)))
      ∙ hear-pulse t mode line s_idle (suc from + 160 * t) n 0 0 byte 7 true true false (e' byte) ws
          some
      ∙ ap
          (λ x.
            listen t mode line (suc from + 160 * t) n
              (block 0 s_idle 0 byte 7 true (ws ++ (byte ∷ [])) x))
          (or_false (e' byte))

  -- A byte whose bits fit the ticks, after any idle clocks: it is written once, and its parity checked.
  pub listen-IsFrame :
      (at a b byte : ℕ) (parity e : Bool) (ws : List ℕ) (s : RxBlock)
      → 0 < t
      → t < 65536
      → mode ≢ 0
      → byte < 256
      → IsInTune t a b
      → IsFrame line at a b byte parity
      → IsIdle t ws e s
      → IsIdle t
          (ws ++ (byte ∷ []))
          (e || bit_ne parity (rx_parity mode byte))
          (listen t mode line at (a + 10 * b) s)
  listen-IsFrame at a b byte parity e ws s pos w some_parity range tune frame
        (c, k, d, i, lt, small, q) =
      let c'' = baud_clk_cnt t (baud_clk_cnt t c) in
      let below : c'' < t = ground arith in
      let from : ℕ = suc at + (8 * t - c'') in
      let n : ℕ = at + a + 10 * b - (suc from + 160 * t) in
      let (levels, level8, level9, high) =
        IsFrame-IsSampled t line at a b byte from parity pos tune (omega arith) (omega arith)
          frame in
      let e' = e || bit_ne parity (rx_parity mode byte) in
      let same : listen t mode line at (a + 10 * b) s
          ≡ listen t mode line (suc from + 160 * t) n
              (block 0 s_idle 0 byte 7 true (ws ++ (byte ∷ [])) e') =
        ap₂ (λ (x : ℕ) u. listen t mode line at x u) (omega arith) q
        ∙ hear-byte at from byte n c k d i parity e ws pos w some_parity range lt small
            (Level-at line at a at frame.0 (omega arith) (omega arith)) refl (omega arith)
            (levels, level8, level9, λ x l h. high x l (omega arith)) in
      rw same (
        IsIdle-listen t mode line n (suc from + 160 * t) (ws ++ (byte ∷ [])) e' _ w
          (λ x h. high (suc from + 160 * t + x) (omega arith) (omega arith))
          (0, 0, byte, 7, pos, range, refl))

  -- Bytes below 256 one after the other on the wire, each after any idle clocks, whose bits fit the ticks
  -- of a receiver that waits, on an idle wire, with a parity mode that is not 0 and 1 to 65535 clocks to a
  -- tick, whatever the count of its baud clock: it writes each byte to the queue, once and in order, waits
  -- again, and its parity flip flop is set exactly if it was set or one of the parity bits was not the one
  -- of the mode.
  pub listen-frames :
      (b : ℕ) (fs : List Byte) (at : ℕ) (ws : List ℕ) (e : Bool) (s : RxBlock)
      → 0 < t
      → t < 65536
      → mode ≢ 0
      → All (λ f. (f.byte < 256) × IsInTune t f.start_clocks b) fs
      → Sends line b at fs
      → IsIdle t ws e s
      → IsIdle t
          (ws ++ map (λ (f : Byte). f.byte) fs)
          (e || any_wrong mode fs)
          (listen t mode line at (clocks b fs) s)
  unfolding listen
  listen-frames b [] at ws e s pos w some_parity tune sends idle =
      rw (append-nil ws, or_false e) idle
  listen-frames b (f ∷ fs) at ws e s pos w some_parity ((range, here), tune) (gap, frame, sends)
        idle =
      let n : ℕ = f.start_clocks + 10 * b in
      let s' = listen t mode line at f.idle_clocks s in
      let s'' = listen t mode line (at + f.idle_clocks) n s' in
      let wrong = bit_ne f.parity (rx_parity mode f.byte) in
      let one =
        listen-IsFrame (at + f.idle_clocks) f.start_clocks b f.byte f.parity e ws s' pos w
          some_parity range here frame
          (IsIdle-listen t mode line f.idle_clocks at ws e s w gap idle) in
      let rest =
        listen-frames b fs (at + f.idle_clocks + n) (ws ++ (f.byte ∷ [])) (e || wrong) s'' pos w
          some_parity tune sends one in
      rw (listen-add t mode line at f.idle_clocks (n + clocks b fs) s) (
        rw (listen-add t mode line (at + f.idle_clocks) n (clocks b fs) s') (
          rw (← append_assoc ws (f.byte ∷ []) (map (λ (f : Byte). f.byte) fs))
            (rw (← or_assoc e wrong (any_wrong mode fs)) rest)))
