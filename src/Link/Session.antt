-- ===== src/Link/Session.antt =====
-- A whole session: commands one after the other on the wire, to a halted or a running machine.
use fpga_nes.Prelude.{
  ℕ, ◌+◌, ◌≡◌, refl, ap, ◌∙◌, Bool, true, false, List, [], ◌∷◌, ◌++◌, append_assoc, append-nil, All,
  if◌then◌else◌,
}
use fpga_nes.Protocol.{Command, IsWellFormed, encode}
use fpga_nes.Hci.{HciState}
use fpga_nes.Link.{Event, Board, clock, run}
use fpga_nes.Link.Clocks.{Scratch, fpga, silent, run_trans}
use fpga_nes.Link.Effects.{
  effects, cfg_after, state_after, clocks, encode_all, history, cfg_after_all, clocks_all,
}
use fpga_nes.Link.Deliver.{deliver}

-- The commands that keep the machine halted.
abbrev pub StaysHalted : Command → Type 0
StaysHalted Command.dbg_run = ⊥
StaysHalted _ = Unit {0}

abbrev pub IsSession : List Command → Type 0
IsSession = All (λ c. IsWellFormed c × StaysHalted c)

pub state_after-decode : (c : Command) → StaysHalted c → state_after c ≡ HciState.decode
state_after-decode Command.dbg_run h = absurd h
state_after-decode _ h = refl

module _ (b : Board) (err : ℕ) where
  pub deliver_all :
      (cs : List Command) (s : Scratch) (cfg : ℕ) (rest : List ℕ) (trace : List Event)
      → IsSession cs
      → (s' : Scratch) × (run b
            (clocks_all cs)
            (fpga HciState.decode s err cfg (encode_all cs ++ rest) trace)
          ≡ fpga HciState.decode s' err (cfg_after_all cfg cs) rest (history b trace cs))
  deliver_all [] s cfg rest trace h = (s, unfold run in refl)
  deliver_all (c ∷ cs) s cfg rest trace ((wf, halted), h) =
      let (s', first) = deliver b s err cfg c (encode_all cs ++ rest) trace wf in
      let first' = rw (state_after-decode c halted) at first in
      let (s'', others) = deliver_all cs s' (cfg_after cfg c) rest (trace ++ effects b trace c) h in
      (
        s'',
        ap (λ rx. run b (clocks_all (c ∷ cs)) (fpga HciState.decode s err cfg rx trace))
              (append_assoc (encode c) (encode_all cs) rest)
            ∙ run_trans b (clocks c) (clocks_all cs) _ first' others,
      )

  -- A break reaches a machine that runs as well as one that is halted.
  pub deliver_break :
      (running : Bool) (s : Scratch) (cfg : ℕ) (rest : List ℕ) (trace : List Event)
      → (s' : Scratch) × (run b 1 (
            fpga
              (if running then HciState.disabled else HciState.decode)
              s
              err
              cfg
              (encode Command.dbg_hlt ++ rest)
              trace)
          ≡ fpga HciState.decode s' err cfg rest trace)
  unfolding run clock
  deliver_break true s cfg rest trace = (silent s.decode_cnt s.execute_cnt s.addr, refl)
  deliver_break false s cfg rest trace = (silent 0 s.execute_cnt s.addr, refl)

  -- A break, well-formed commands that keep the machine halted, and `dbg_run`, with no byte late: whether
  -- the machine was running or halted, every command takes effect once, in order, and the machine runs
  -- at the end, with its queue empty.
  pub session_lem :
      (running : Bool) (cs : List Command) (s : Scratch) (cfg : ℕ) (trace : List Event)
      → IsSession cs
      → (s' : Scratch) × (run b (1 + (clocks_all cs + 1)) (
            fpga
              (if running then HciState.disabled else HciState.decode)
              s
              err
              cfg
              (encode Command.dbg_hlt ++ (encode_all cs ++ encode Command.dbg_run))
              trace)
          ≡ fpga HciState.disabled s' err (cfg_after_all cfg cs) [] (history b trace cs))
  session_lem running cs s cfg trace h =
      let (s1, broken) =
        deliver_break running s cfg (encode_all cs ++ encode Command.dbg_run) trace in
      let (s2, served) = deliver_all cs s1 cfg (encode Command.dbg_run) trace h in
      let (s3, started) =
        deliver b s2 err (cfg_after_all cfg cs) Command.dbg_run [] (history b trace cs) tt in
      (
        s3,
        run_trans b 1 (clocks_all cs + 1) _ broken (
            run_trans b (clocks_all cs) 1 _ served (
              started
              ∙ ap (fpga HciState.disabled s3 err (cfg_after_all cfg cs) []) (append-nil _))),
      )
