-- ===== src/Examples/Pins.antt =====
-- Bytes on a wire of the UART, from a list of levels, 16 clocks each.
use fpga_nes.Prelude.{
  ℕ, zero, suc, ◌+◌, ◌*◌, ◌/◌, ◌≡◌, refl, sym, ap, ◌∙◌, inl, Bool, true, false, not, List, [], ◌∷◌,
  ◌++◌, length, arith,
}
use mathlib.Core.List.{map}
use fpga_nes.Hci.{HciState, cycle}
use fpga_nes.Link.{reg_write}
use fpga_nes.Fifo.{step}
use fpga_nes.Uart.{System, system_clock}
use fpga_nes.Uart.Session.{session_bytes}
use fpga_nes.Uart.Frame.{Wire, Byte, Levels, Sends, clocks, bits_after_start}
use fpga_nes.Uart.Baud.{SerialState, xor_bits}
use fpga_nes.Uart.Rx.{rx_reset, rx_clock, RxBlock, listen}
use fpga_nes.Uart.Rx.Samples.{IsIdle}
use fpga_nes.Uart.Rx.Frames.{listen-frames}
use fpga_nes.Uart.Tx.{tx_reset, tx_clock, TxBlock, talk, wire}
use fpga_nes.Uart.Tx.Clocks.{block}
use fpga_nes.Uart.Tx.Frames.{frames, talk-Sends}
use fpga_nes.Uart.Wire.{listen-talk_odd, listen-talk_even}
use fpga_nes.Uart.Pins.{Chip, run_chip, lines_of, chip_clock}
use fpga_nes.Uart.Pins.Views.{has_room}
use fpga_nes.Uart.Pins.Session.{after, run_chip-session}
use fpga_nes.Examples.{board}
use fpga_nes.Examples.Uart.{start, cleared-Holds, commands}

-- The level of a list, idle behind its end.
abbrev nth : List Bool → ℕ → Bool
nth [] i = true
nth (x ∷ xs) zero = x
nth (x ∷ xs) (suc i) = nth xs i

abbrev wave : List Bool → Wire
wave xs i = nth xs (i / 16)

Levels-at :
    (f : Wire) (xs : List Bool) {at at' : ℕ} → at ≡ at' → Levels f at 16 xs → Levels f at' 16 xs
Levels-at f xs e h = rw e at h

Levels-wave :
    (xs : List Bool) (k : ℕ) (ys : List Bool)
    → ((j : ℕ) → nth xs (k + j) ≡ nth ys j)
    → Levels (wave xs) (k * 16) 16 ys
Levels-wave xs k [] h = tt
Levels-wave xs k (y ∷ ys) h = (
  λ i lt. ap (nth xs) (omega arith) ∙ h 0,
  Levels-at (wave xs) ys (omega arith)
      (Levels-wave xs (k + 1) ys (λ j. ap (nth xs) (omega arith) ∙ h (suc j))),
)

-- The levels of a list of bytes.
abbrev levels_of : List Byte → List Bool
levels_of [] = []
levels_of (f ∷ fs) = true ∷ (false ∷ (bits_after_start f.byte f.parity ++ levels_of fs))

Levels-split :
    (f : Wire) (at : ℕ) (xs ys : List Bool)
    → Levels f at 16 (xs ++ ys)
    → Levels f at 16 xs × Levels f (at + length xs * 16) 16 ys
Levels-split f at [] ys h = (tt, Levels-at f ys (omega arith) h)
Levels-split f at (x ∷ xs) ys (here, h) =
    let (front, back) = Levels-split f (at + 16) xs ys h in
    ((here, front), Levels-at f ys (omega arith) back)

-- A byte with the parity bit of odd parity, after one idle level.
abbrev sent : ℕ → Byte
sent x = record { idle_clocks = 16; start_clocks = 16; byte = x; parity = not (xor_bits x) }

Sends-levels_of :
    (f : Wire) (at : ℕ) (xs : List ℕ)
    → Levels f at 16 (levels_of (map sent xs))
    → Sends f 16 at (map sent xs)
Sends-levels_of f at [] h = tt
Sends-levels_of f at (x ∷ xs) (gap, (low, bits)) =
    let (here, rest) =
      Levels-split f (at + 16 + 16) (bits_after_start x (not (xor_bits x))) _ bits in
    (
      gap,
      (low, here),
      Sends-levels_of f (at + 16 + (16 + 10 * 16)) xs
          (Levels-at f (levels_of (map sent xs)) (omega arith) rest),
    )

bytes_sent : (xs : List ℕ) → map (λ (f : Byte). f.byte) (map sent xs) ≡ xs
bytes_sent [] = refl
bytes_sent (x ∷ xs) = ap (λ ys. x ∷ ys) (bytes_sent xs)

abbrev carries : List ℕ → Wire
carries xs = wave (levels_of (map sent xs))

carries-Sends : (xs : List ℕ) → Sends (carries xs) 16 0 (map sent xs)
carries-Sends xs = Sends-levels_of (carries xs) 0 xs (
    Levels-wave (levels_of (map sent xs)) 0 (levels_of (map sent xs))
      (λ j. ap (nth (levels_of (map sent xs))) (omega arith)))

abbrev awake : RxBlock
awake = record { baud_cnt = 0; regs = rx_reset; written = []; rx_parity_err = false }

-- A tick in every clock.
listen-frames_example :
    IsIdle 1
      (0x4E ∷ 0x00 ∷ [])
      false
      (listen 1 1 (carries (0x4E ∷ 0x00 ∷ [])) 0 (clocks 16 (map sent (0x4E ∷ 0x00 ∷ []))) awake)
listen-frames_example =
    listen-frames 1 1 (carries (0x4E ∷ 0x00 ∷ [])) 16 (map sent (0x4E ∷ 0x00 ∷ [])) 0 [] false awake
      (omega arith) (omega arith) (omega arith)
      ((omega arith, omega arith), ((omega arith, omega arith), tt))
      (carries-Sends (0x4E ∷ 0x00 ∷ [])) (0, 0, 0, 0, omega arith, omega arith, refl)

-- 25 clocks to a tick on one side, 24 on the other.
abbrev queued : TxBlock
queued = block 3 SerialState.s_idle 0 0 0 false true (0x4E ∷ 0xFF ∷ [])

talk-Sends_example :
    Sends (wire 25 1 queued) 400 0 (frames 25 1 3 (0x4E ∷ 0xFF ∷ []))
    × ((talk 25 1 (clocks 400 (frames 25 1 3 (0x4E ∷ 0xFF ∷ []))) queued).regs.state
        ≡ SerialState.s_idle)
    × ((talk 25 1 (clocks 400 (frames 25 1 3 (0x4E ∷ 0xFF ∷ []))) queued).queue ≡ [])
talk-Sends_example =
    talk-Sends 25 1 (omega arith) (omega arith) (inl refl) (0x4E ∷ 0xFF ∷ []) 3 0 0 0 false
      (omega arith)

listen-talk_odd_example :
    ((talk 25 1 (clocks 400 (frames 25 1 3 (0x4E ∷ 0xFF ∷ []))) queued).queue ≡ [])
    × ((talk 25 1 (clocks 400 (frames 25 1 3 (0x4E ∷ 0xFF ∷ []))) queued).regs.state
        ≡ SerialState.s_idle)
    × IsIdle 24
        (0x4E ∷ 0xFF ∷ [])
        false
        (listen 24 1 (wire 25 1 queued) 0 (clocks 400 (frames 25 1 3 (0x4E ∷ 0xFF ∷ []))) awake)
listen-talk_odd_example =
    listen-talk_odd 25 24 (0x4E ∷ 0xFF ∷ []) [] 3 0 0 0 false false awake (omega arith)
      (omega arith) (omega arith) (omega arith) (omega arith, omega arith)
      (omega arith, (omega arith, tt)) (omega arith) (0, 0, 0, 0, omega arith, omega arith, refl)

listen-talk_even_example : IsIdle 25 (0x01 ∷ 0x00 ∷ []) true (
    listen 25 2
      (wire 25 2 (block 3 SerialState.s_idle 0 0 0 false true (0x01 ∷ 0x00 ∷ [])))
      0
      (clocks 400 (frames 25 2 3 (0x01 ∷ 0x00 ∷ [])))
      awake)
listen-talk_even_example =
    listen-talk_even 25 25 (0x01 ∷ 0x00 ∷ []) [] 3 0 0 0 false false awake (omega arith)
      (omega arith) (omega arith) (omega arith) (omega arith, omega arith)
      (omega arith, (omega arith, tt)) (omega arith) (0, 0, 0, 0, omega arith, omega arith, refl)

-- A break, a write to a register and `dbg_run`, with a tick in every clock, from the reset on.
abbrev chip : Chip
chip = record { baud_cnt = 0; rx = rx_reset; tx = tx_reset; system = start }

abbrev bytes : List ℕ
bytes = session_bytes commands

chip_room :
    has_room board (lines_of board 1 1 (carries bytes) 0 (clocks 16 (map sent bytes)) chip) start
    ≡ true
unfolding has_room lines_of chip_clock system_clock cycle step rx_clock tx_clock
chip_room = refl

abbrev ended : System
ended = after board 1 (carries bytes) 16 (map sent bytes) chip

chip_stops : ended.regs.state ≡ HciState.disabled
unfolding run_chip chip_clock system_clock cycle step rx_clock tx_clock
chip_stops = refl

chip_front : ended.uart.rx_fifo.rd_ptr ≡ 5
unfolding run_chip chip_clock system_clock cycle step rx_clock tx_clock
chip_front = refl

chip_back : ended.uart.rx_fifo.wr_ptr ≡ 5
unfolding run_chip chip_clock system_clock cycle step rx_clock tx_clock
chip_back = refl

chip_fits : ended.uart.rx_fifo.full ≡ false
unfolding run_chip chip_clock system_clock cycle step rx_clock tx_clock
chip_fits = refl

run_chip-session_example :
    (ended.trace ≡ reg_write 0 0x80 ∷ [])
    × (ended.regs.state ≡ HciState.disabled)
    × (ended.regs.err_code ≡ 0)
    × (ended.regs.cart_cfg ≡ 0)
    × (ended.uart.parity_err ≡ false)
run_chip-session_example =
    run_chip-session board 1 (carries bytes) 16 (map sent bytes) chip commands false true
      (omega arith) (omega arith)
      (
        (omega arith, omega arith),
        (
          (omega arith, omega arith),
          (
            (omega arith, omega arith),
            ((omega arith, omega arith), ((omega arith, omega arith), tt)),
          ),
        ),
      )
      (carries-Sends bytes) refl refl (0, 0, 0, 0, omega arith, omega arith, refl) cleared-Holds
      refl (((omega arith, omega arith), tt), tt) chip_room chip_stops (chip_front ∙ sym chip_back)
      chip_fits
