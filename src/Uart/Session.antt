-- ===== src/Uart/Session.antt =====
-- A session over the UART, hw/src/hci/hci.v and hw/src/cmn/uart/uart.v, at whatever times its bytes come.
use fpga_nes.Prelude.{
  ℕ, ◌+◌, ◌≡◌, ap, ap₂, ◌∙◌, Bool, true, false, List, [], ◌∷◌, ◌++◌, All, arith, if◌then◌else◌,
}
use fpga_nes.Protocol.{Command, encode}
use fpga_nes.Hci.{HciState}
use fpga_nes.Link.{Board, run}
use fpga_nes.Link.Clocks.{Scratch, fpga}
use fpga_nes.Link.Effects.{encode_all, history, cfg_after_all, clocks_all}
use fpga_nes.Link.Session.{IsSession, session_lem}
use fpga_nes.Link.Schedule.{IsCalm}
use fpga_nes.Link.Stalls.{waiting, run_on-between}
use fpga_nes.Fifo.Queue.{Holds, Holds-drained}
use fpga_nes.Uart.{Line, System, system_clock, run_system, received}
use fpga_nes.Uart.Refines.{view}
use fpga_nes.Uart.Runs.{schedule, run_system-run_on}

-- No parity error and no break by the CPU.
abbrev pub IsCleanLine : Line → Type 0
IsCleanLine l = (l.rx_parity_err ≡ false) × (l.brk ≡ false)

module _ (b : Board) where
  parity_clock :
      (l : Line) (s : System)
      → IsCleanLine l
      → s.uart.parity_err ≡ false
      → (system_clock b l s).uart.parity_err ≡ false
  unfolding system_clock
  parity_clock l s (clean, calm) off = rw off clean

  IsCalm-schedule :
      (ls : List Line) (s : System)
      → All IsCleanLine ls
      → s.uart.parity_err ≡ false
      → All IsCalm (schedule b ls s)
  unfolding schedule
  IsCalm-schedule [] s clean off = tt
  IsCalm-schedule (l ∷ ls) s (here, clean) off =
      ((off, here.1), IsCalm-schedule ls (system_clock b l s) clean (parity_clock l s here off))

-- The registers that a packet works with.
abbrev pub scratch_of : System → Scratch
scratch_of s = record {
  decode_cnt = s.regs.decode_cnt;
  execute_cnt = s.regs.execute_cnt;
  addr = s.regs.addr;
  cart_cfg_upd = s.regs.cart_cfg_upd;
  tx_data = s.regs.tx_data;
  wr_en = s.regs.wr_en;
}

-- The state between two packets.
abbrev pub between : Bool → HciState
between running = if running then HciState.disabled else HciState.decode

view_path :
    (s : System) (running : Bool)
    → s.regs.state ≡ between running
    → view s [] ≡ waiting running (scratch_of s) s.regs.err_code s.regs.cart_cfg s.trace
view_path s running at =
    ap (λ st. fpga st (scratch_of s) s.regs.err_code s.regs.cart_cfg [] s.trace) at

abbrev pub session_bytes : List Command → List ℕ
session_bytes cs = encode Command.dbg_hlt ++ (encode_all cs ++ encode Command.dbg_run)

-- The interface with its UART, between two packets, running or halted, with `xs` in its receive queue,
-- over any clocks of a line without a parity error and without a break by the CPU, whatever the times
-- at which bytes come and go. If `xs` and the bytes that the queue took in are a break, well-formed
-- commands that keep the machine halted, and `dbg_run`, and at the end the interface is between two
-- packets and the pointers of its receive queue meet while it does not say that it is full, then every
-- command has taken effect once, in order, and nothing else has happened on the board or been sent back;
-- the machine runs, the error code is the one before, and the cartridge configuration the last one set.
pub run_system-session :
    (b : Board) (ls : List Line) (s : System) (xs : List ℕ) (cs : List Command)
    (running running' : Bool)
    → Holds 3 s.uart.rx_fifo xs
    → All IsCleanLine ls
    → s.uart.parity_err ≡ false
    → s.regs.state ≡ between running
    → IsSession cs
    → xs ++ received b ls s ≡ session_bytes cs
    → (run_system b ls s).regs.state ≡ between running'
    → (run_system b ls s).uart.rx_fifo.rd_ptr ≡ (run_system b ls s).uart.rx_fifo.wr_ptr
    → (run_system b ls s).uart.rx_fifo.full ≡ false
    → ((run_system b ls s).trace ≡ history b s.trace cs)
      × ((run_system b ls s).regs.state ≡ HciState.disabled)
      × ((run_system b ls s).regs.err_code ≡ s.regs.err_code)
      × ((run_system b ls s).regs.cart_cfg ≡ cfg_after_all s.regs.cart_cfg cs)
run_system-session b ls s xs cs running running' h clean off start wf came stop meet room =
    let final = run_system b ls s in
    let (ys, held, runs) = run_system-run_on b ls s xs h in
    let drained = Holds-drained 3 final.uart.rx_fifo ys (omega arith) held meet room in
    let (s', served) =
      session_lem b s.regs.err_code running cs (scratch_of s) s.regs.cart_cfg s.trace wf in
    let begun : view s (xs ++ received b ls s)
        ≡ fpga (between running) (scratch_of s) s.regs.err_code s.regs.cart_cfg (session_bytes cs)
            s.trace =
      ap₂ (λ st rx. fpga st (scratch_of s) s.regs.err_code s.regs.cart_cfg rx s.trace) start came in
    let same =
      run_on-between b (schedule b ls s) (1 + (clocks_all cs + 1)) (view s (xs ++ received b ls s))
        true running' s' (scratch_of final) s.regs.err_code final.regs.err_code
        (cfg_after_all s.regs.cart_cfg cs) final.regs.cart_cfg (history b s.trace cs) final.trace
        (IsCalm-schedule b ls s clean off) (ap (run b (1 + (clocks_all cs + 1))) begun ∙ served)
        (runs ∙ ap (view final) drained ∙ view_path final running' stop) in
    (
      ap (λ f. f.trace) same,
      stop ∙ ap (λ f. f.regs.state) same,
      ap (λ f. f.regs.err_code) same,
      ap (λ f. f.regs.cart_cfg) same,
    )
