-- ===== src/Examples/Uart.antt =====
-- A short session over the UART, from the reset on.
use fpga_nes.Prelude.{
  ℕ, ◌≡◌, refl, true, false, Option, none, some, List, [], ◌∷◌, ◌++◌, All, arith,
}
use fpga_nes.Protocol.{Command}
use fpga_nes.Hci.{HciState, reset, cycle}
use fpga_nes.Link.{reg_write}
use fpga_nes.Link.Schedule.{run_on}
use fpga_nes.Fifo.{Fifo, FifoInputs, step}
use fpga_nes.Fifo.Queue.{Holds}
use fpga_nes.Fifo.Order.{accepted, reset-Holds}
use fpga_nes.Uart.Room.{IsGuarded, run_system-room, system_clock-echo}
use fpga_nes.Uart.{tx_wires, Line, System, run_system, received, system_clock}
use fpga_nes.Uart.Refines.{view}
use fpga_nes.Uart.Runs.{schedule, run_system-run_on}
use fpga_nes.Uart.Session.{IsCleanLine, session_bytes, run_system-session}
use fpga_nes.Examples.{board}

abbrev pub resets : FifoInputs
resets = record { rst = true; rd_en = false; wr_en = false; wr_data = 0 }

abbrev pub cleared : Fifo
cleared =
    step 3 resets
      (record { rd_ptr = 1; wr_ptr = 1; empty = false; full = true; data_array = λ i. 0xEE })

abbrev pub start : System
start = record {
  regs = reset;
  uart = record { rx_fifo = cleared; tx_fifo = cleared; parity_err = false };
  trace = [];
}

abbrev silence : Line
silence = record {
  rx_done_tick = false;
  rx_byte = 0;
  rx_parity_err = false;
  tx_done_tick = false;
  brk = false;
}

abbrev receives : ℕ → Line
receives v = record {
  rx_done_tick = true;
  rx_byte = v;
  rx_parity_err = false;
  tx_done_tick = false;
  brk = false;
}

-- The clocks in which a byte comes, and those in which none does.
abbrev line_of : Option ℕ → Line
line_of none = silence
line_of (some v) = receives v

abbrev lines_of : List (Option ℕ) → List Line
lines_of [] = []
lines_of (t ∷ ts) = line_of t ∷ lines_of ts

clean_line : (t : Option ℕ) → IsCleanLine (line_of t)
clean_line none = (refl, refl)
clean_line (some v) = (refl, refl)

clean_lines : (ts : List (Option ℕ)) → All IsCleanLine (lines_of ts)
clean_lines [] = tt
clean_lines (t ∷ ts) = (clean_line t, clean_lines ts)

-- A break, a write to a register, of which two bytes come at once, and `dbg_run`.
abbrev times : List (Option ℕ)
times =
    some 0x03
    ∷ none
    ∷ none
    ∷ some 0x06
    ∷ none
    ∷ none
    ∷ some 0x00
    ∷ some 0x80
    ∷ none
    ∷ none
    ∷ none
    ∷ some 0x04
    ∷ none
    ∷ none
    ∷ []

abbrev lines : List Line
lines = lines_of times

abbrev pub commands : List Command
commands = Command.cpu_reg_wr 0 0x80 ∷ []

pub cleared-Holds : Holds 3 cleared []
cleared-Holds = reset-Holds 3 resets _ (omega arith) refl

came : received board lines start ≡ session_bytes commands
unfolding received system_clock cycle step
came = refl

stops : (run_system board lines start).regs.state ≡ HciState.disabled
unfolding run_system system_clock cycle step
stops = refl

meets :
    (run_system board lines start).uart.rx_fifo.rd_ptr
    ≡ (run_system board lines start).uart.rx_fifo.wr_ptr
unfolding run_system system_clock cycle step
meets = refl

has_room : (run_system board lines start).uart.rx_fifo.full ≡ false
unfolding run_system system_clock cycle step
has_room = refl

run_system-run_on_example :
    (ys : List ℕ) × Holds 3 (run_system board lines start).uart.rx_fifo ys
    × (run_on board (schedule board lines start) (view start ([] ++ received board lines start))
        ≡ view (run_system board lines start) ys)
run_system-run_on_example = run_system-run_on board lines start [] cleared-Holds

run_system-session_example :
    ((run_system board lines start).trace ≡ reg_write 0 0x80 ∷ [])
    × ((run_system board lines start).regs.state ≡ HciState.disabled)
    × ((run_system board lines start).regs.err_code ≡ 0)
    × ((run_system board lines start).regs.cart_cfg ≡ 0)
run_system-session_example =
    run_system-session board lines start [] commands false true cleared-Holds (clean_lines times)
      refl refl ((((omega arith, omega arith), tt), tt)) came stops meets has_room

-- A query of the error code.
abbrev asking : List Line
asking = receives 0x08 ∷ silence ∷ []

asking_state : IsGuarded (run_system board asking start).regs.state
unfolding run_system system_clock cycle step
asking_state = tt

asking_sends : (system_clock board silence (run_system board asking start)).regs.wr_en ≡ true
unfolding run_system system_clock cycle step
asking_sends = refl

run_system-room_example :
    accepted
      (tx_wires (system_clock board silence (run_system board asking start)).regs silence)
      (system_clock board silence (run_system board asking start)).uart.tx_fifo
    ≡ (system_clock board silence (run_system board asking start)).regs.tx_data ∷ []
run_system-room_example =
    run_system-room board asking silence silence start tt asking_state asking_sends

-- An echo under way, with a byte that has come and a full transmit queue.
abbrev crowded : System
crowded = record {
  regs = record reset { state = HciState.echo_stg_1; execute_cnt = 3 };
  uart = record {
    rx_fifo = record {
      rd_ptr = 0;
      wr_ptr = 1;
      empty = false;
      full = false;
      data_array = λ i. 0x41;
    };
    tx_fifo = record { rd_ptr = 2; wr_ptr = 2; empty = false; full = true; data_array = λ i. 0x40 };
    parity_err = false;
  };
  trace = [];
}

system_clock-echo_example :
    ((system_clock board silence crowded).regs.wr_en ≡ true)
    × ((system_clock board silence crowded).regs.tx_data ≡ 0x41)
    × (accepted
          (tx_wires (system_clock board silence crowded).regs silence)
          (system_clock board silence crowded).uart.tx_fifo
        ≡ [])
system_clock-echo_example = system_clock-echo board silence silence crowded refl refl refl refl
