-- ===== src/Uart/Pins/Session.antt =====
-- A session over the rx pin of the host interface, hw/src/hci/hci.v and hw/src/cmn/uart/.
use fpga_nes.Prelude.{ℕ, ◌<◌, ◌≡◌, ◌≢◌, sym, ap, ◌∙◌, Bool, true, false, List, [], All, arith}
use mathlib.Core.List.{map}
use fpga_nes.Protocol.{Command}
use fpga_nes.Hci.{HciState}
use fpga_nes.Link.{Board}
use fpga_nes.Link.Effects.{history, cfg_after_all}
use fpga_nes.Link.Session.{IsSession}
use fpga_nes.Fifo.Queue.{Holds}
use fpga_nes.Uart.{Line, System}
use fpga_nes.Uart.Session.{between, session_bytes, run_system-session}
use fpga_nes.Uart.Frame.{Byte, Sends, clocks}
use fpga_nes.Uart.Rx.{RxBlock}
use fpga_nes.Uart.Rx.Samples.{IsIdle}
use fpga_nes.Uart.Rx.Tuned.{IsInTune}
use fpga_nes.Uart.Rx.Frames.{any_wrong, listen-frames}
use fpga_nes.Uart.Pins.{Chip, run_chip, lines_of}
use fpga_nes.Uart.Pins.Views.{
  has_room, receiver, handed, run_chip-run_system, run_chip-listen, lines_of-clean, received-handed,
}

-- What the receiver and the queues make of bytes on the rx pin.
module _ (b : Board) (t mode : ℕ) (line : ℕ → Bool) (len : ℕ) (fs : List Byte) (c : Chip) where
  abbrev final : Chip
  final = run_chip b t mode line 0 (clocks len fs) c

  abbrev lines : List Line
  lines = lines_of b t mode line 0 (clocks len fs) c

  pins-listen :
      0 < t
      → t < 65536
      → mode ≢ 0
      → All (λ (f : Byte). (f.byte < 256) × IsInTune t f.start_clocks len) fs
      → Sends line len 0 fs
      → any_wrong mode fs ≡ false
      → IsIdle t [] false (receiver [] c)
      → (handed lines ≡ map (λ (f : Byte). f.byte) fs) × (final.system.uart.parity_err ≡ false)
  pins-listen pos w some_parity tune sends right idle =
      let (c', k, d, i, lt, small, ends) = rw right at (
        listen-frames t mode line len fs 0 [] false (receiver [] c) pos w some_parity tune sends
          idle) in
      let same = sym (run_chip-listen b t mode line (clocks len fs) 0 c []) ∙ ends in
      (ap (λ (s : RxBlock). s.written) same, ap (λ (s : RxBlock). s.rx_parity_err) same)

-- The interface and its queues once these bytes have come.
abbrev pub after : Board → ℕ → (ℕ → Bool) → ℕ → List Byte → Chip → System
after b t line len fs c = (run_chip b t 1 line 0 (clocks len fs) c).system

-- The host interface with an idle wire, between two packets, running or halted, its receive queue empty,
-- over the clocks in which bytes with their odd parity bits come one after the other on its rx pin, each
-- after any idle clocks, with bits that fit its baud clock, of 1 to 65535 clocks to a tick, and in which
-- the CPU does not break. If the bytes are a break, well-formed commands that keep the machine halted, and
-- `dbg_run`, the receive queue has room for each, and at the end the interface is between two packets and
-- the pointers of that queue meet while it does not say that it is full, then every command has taken
-- effect once, in order, and nothing else has happened on the board or been sent back; no parity error was
-- seen; the machine runs, the error code is the one before, and the cartridge configuration the last one
-- set.
pub run_chip-session :
    (b : Board) (t : ℕ) (line : ℕ → Bool) (len : ℕ) (fs : List Byte) (c : Chip) (cs : List Command)
    (running running' : Bool)
    → 0 < t
    → t < 65536
    → All (λ (f : Byte). (f.byte < 256) × IsInTune t f.start_clocks len) fs
    → Sends line len 0 fs
    → any_wrong 1 fs ≡ false
    → map (λ (f : Byte). f.byte) fs ≡ session_bytes cs
    → IsIdle t [] false (receiver [] c)
    → Holds 3 c.system.uart.rx_fifo []
    → c.system.regs.state ≡ between running
    → IsSession cs
    → has_room b (lines_of b t 1 line 0 (clocks len fs) c) c.system ≡ true
    → (after b t line len fs c).regs.state ≡ between running'
    → (after b t line len fs c).uart.rx_fifo.rd_ptr ≡ (after b t line len fs c).uart.rx_fifo.wr_ptr
    → (after b t line len fs c).uart.rx_fifo.full ≡ false
    → let s = after b t line len fs c in
      (s.trace ≡ history b c.system.trace cs)
      × (s.regs.state ≡ HciState.disabled)
      × (s.regs.err_code ≡ c.system.regs.err_code)
      × (s.regs.cart_cfg ≡ cfg_after_all c.system.regs.cart_cfg cs)
      × (s.uart.parity_err ≡ false)
run_chip-session b t line len fs c cs running running' pos w tune sends right bytes idle h start wf
      room stop meet fits =
    let ls = lines b t 1 line len fs c in
    let same = run_chip-run_system b t 1 line (clocks len fs) 0 c in
    let (came, off) = pins-listen b t 1 line len fs c pos w (omega arith) tune sends right idle in
    let (clean, before) = lines_of-clean b t 1 line (clocks len fs) 0 c off in
    let (r1, r2, r3, r4) =
      run_system-session b ls c.system [] cs running running' h clean before start wf
        (received-handed b ls c.system room ∙ came ∙ bytes) (rw same at stop) (rw same at meet)
        (rw same at fits) in
    (
      ap (λ s. s.trace) same ∙ r1,
      ap (λ s. s.regs.state) same ∙ r2,
      ap (λ s. s.regs.err_code) same ∙ r3,
      ap (λ s. s.regs.cart_cfg) same ∙ r4,
      off,
    )
