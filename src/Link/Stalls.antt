-- ===== src/Link/Stalls.antt =====
-- Sessions on a serial line that stalls: the interface of hw/src/hci/hci.v catches up.
use fpga_nes.Prelude.{
  ℕ, zero, suc, ◌+◌, ◌-◌, ◌≤◌, ◌≡◌, refl, sym, ap, ◌∙◌, Bool, true, false, List, [], ◌++◌, arith,
  All, if◌then◌else◌,
}
use fpga_nes.Protocol.{Command, encode}
use fpga_nes.Hci.{HciState}
use fpga_nes.Link.{Event, Board, Wires, Fpga, clock, quiet, run}
use fpga_nes.Link.Clocks.{Scratch, fpga, run-add}
use fpga_nes.Link.Effects.{encode_all, history, cfg_after_all, clocks_all}
use fpga_nes.Link.Session.{IsSession, session_lem}
use fpga_nes.Link.Schedule.{settle, IsCalm, ready_clocks, run_on, run_on_lem, settle-run}

-- Between two packets, with an empty queue.
abbrev pub waiting : Bool → Scratch → ℕ → ℕ → List Event → Fpga
waiting running s err cfg trace =
    fpga (if running then HciState.disabled else HciState.decode) s err cfg [] trace

module _ (b : Board) where
  waiting-clock :
      (running : Bool) (s : Scratch) (err cfg : ℕ) (trace : List Event)
      → settle (clock b quiet (waiting running s err cfg trace))
        ≡ settle (waiting running s err cfg trace)
  unfolding clock
  waiting-clock true s err cfg trace = refl
  waiting-clock false s err cfg trace = refl

  waiting-run :
      (k : ℕ) (running : Bool) (s : Scratch) (err cfg : ℕ) (trace : List Event)
      → settle (run b k (waiting running s err cfg trace))
        ≡ settle (waiting running s err cfg trace)
  unfolding run
  waiting-run zero running s err cfg trace = refl
  waiting-run (suc k) running s err cfg trace =
      settle-run b k _ _ (waiting-clock running s err cfg trace)
      ∙ waiting-run k running s err cfg trace

  -- A run that ends between two packets, on any schedule with enough clocks that are ready.
  pub run_on-ends :
      (ws : List Wires) (n : ℕ) (f : Fpga) (running : Bool) (s : Scratch) (err cfg : ℕ)
      (trace : List Event)
      → All IsCalm ws
      → n ≤ ready_clocks ws
      → run b n f ≡ waiting running s err cfg trace
      → settle (run_on b ws f) ≡ settle (waiting running s err cfg trace)
  run_on-ends ws n f running s err cfg trace calm enough ends =
      let (k, ready, few, same) = run_on_lem b ws f calm in
      let more : n + (k - n) ≡ k = omega arith in
      same
      ∙ ap (λ m. settle (run b m f)) (sym more)
      ∙ ap settle (run-add b n (k - n) f ∙ ap (run b (k - n)) ends)
      ∙ waiting-run (k - n) running s err cfg trace

  -- A run that is between two packets with an empty queue, on any schedule, is where it ends on quiet
  -- wires.
  pub run_on-between :
      (ws : List Wires) (n : ℕ) (f : Fpga) (running running' : Bool) (s s' : Scratch)
      (err err' cfg cfg' : ℕ) (trace trace' : List Event)
      → All IsCalm ws
      → run b n f ≡ waiting running s err cfg trace
      → run_on b ws f ≡ waiting running' s' err' cfg' trace'
      → settle (waiting running' s' err' cfg' trace') ≡ settle (waiting running s err cfg trace)
  run_on-between ws n f running running' s s' err err' cfg cfg' trace trace' calm ends stops =
      let (k, ready, few, same) = run_on_lem b ws f calm in
      let swap : n + k ≡ k + n = omega arith in
      sym (waiting-run n running' s' err' cfg' trace')
      ∙ settle-run b n _ _ (ap settle (sym stops) ∙ same)
      ∙ ap settle (sym (run-add b k n f) ∙ ap (λ m. run b m f) (sym swap) ∙ run-add b n k f)
      ∙ ap (λ g. settle (run b k g)) ends
      ∙ waiting-run k running s err cfg trace

-- A break, well-formed commands that keep the machine halted, and `dbg_run`, on a line that may stall at
-- any clock, to a machine that runs or is halted: once the next byte could be taken and the UART had room
-- in as many clocks as the session takes, every command has taken effect once, in order, nothing else
-- has happened on the board or been sent back, the queue is empty, and the machine runs.
pub session-finishes :
    (b : Board) (ws : List Wires) (err : ℕ) (running : Bool) (cs : List Command) (s : Scratch)
    (cfg : ℕ) (trace : List Event)
    → All IsCalm ws
    → IsSession cs
    → 1 + (clocks_all cs + 1) ≤ ready_clocks ws
    → (s' : Scratch) × (settle (
          run_on b ws (
            fpga
              (if running then HciState.disabled else HciState.decode)
              s
              err
              cfg
              (encode Command.dbg_hlt ++ (encode_all cs ++ encode Command.dbg_run))
              trace))
        ≡ settle (fpga HciState.disabled s' err (cfg_after_all cfg cs) [] (history b trace cs)))
session-finishes b ws err running cs s cfg trace calm wf enough =
    let (s', done) = session_lem b err running cs s cfg trace wf in
    (
      s',
      run_on-ends b ws (1 + (clocks_all cs + 1)) _ true s' err (cfg_after_all cfg cs)
          (history b trace cs) calm enough done,
    )
