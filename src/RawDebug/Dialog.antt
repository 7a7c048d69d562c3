-- ===== src/RawDebug/Dialog.antt =====
-- The raw debug dialog, `NesDbg::RawDbgDlgProc` of sw/src/nesdbg.cpp: its messages, and a session of it
-- with the FPGA.
use fpga_nes.Prelude.{
  ℕ, ◌%◌, ◌^◌, ◌≡◌, refl, Bool, true, false, Option, some, List, [], ◌∷◌, ◌++◌, length, All, ◌==◌,
  if◌then◌else◌, ◌>>=◌,
}
use fpga_nes.Protocol.{Command, IsWellFormed, encode}
use fpga_nes.Packet.Wire.{packet_of}
use fpga_nes.Hci.{HciState}
use fpga_nes.Link.{Event, Board}
use fpga_nes.Link.Clocks.{Scratch, fpga}
use fpga_nes.Link.Effects.{effects, history, cfg_after, state_after, clocks}
use fpga_nes.Link.Replies.{replied}
use fpga_nes.ScriptMgr.{Link}
use fpga_nes.ScriptMgr.Halted.{fpga_link}
use fpga_nes.RawDebug.{show_bytes}
use fpga_nes.RawDebug.RoundTrip.{raw_debug_packet}
use fpga_nes.RawDebug.Send.{RawOutcome, shown, raw_send, raw_send-halted}

abbrev pub idc_rawdbg_send : ℕ
idc_rawdbg_send = 40020

abbrev pub idc_rawdbg_clear : ℕ
idc_rawdbg_clear = 40024

abbrev pub idc_rawdbg_done : ℕ
idc_rawdbg_done = 40025

-- A message, with the text of the input box when it comes.
pub data RawMsg : Type 0 where
  init_dialog other_msg : RawMsg
  command : ℕ → List ℕ → RawMsg

-- What the dialog is told.
pub data RawDlgEvent : Type 0 where
  set_font clear_output : RawDlgEvent
  answered : RawOutcome → RawDlgEvent
  end_dialog : ℕ → RawDlgEvent

module _ (debug : Bool) (garbage : ℕ → ℕ) (idcancel : ℕ) {W : Type 0} (link : Link W) where
  abbrev pub raw_answer : List ℕ → W → Option (Bool × List RawDlgEvent × W)
  raw_answer text w = do
    (out, w') ← raw_send debug garbage link text w
    some (true, answered out ∷ [], w')

  -- Whether the message was handled, and what it caused.
  unfoldable pub raw_dbg_dlg_proc : RawMsg → W → Option (Bool × List RawDlgEvent × W)
  raw_dbg_dlg_proc init_dialog w = some (true, set_font ∷ [], w)
  raw_dbg_dlg_proc (command w_param text) w =
      let id = w_param % 2 ^ 16 in
      if id == idc_rawdbg_send
      then raw_answer text w
      else if id == idc_rawdbg_clear
      then some (true, clear_output ∷ [], w)
      else if id == idc_rawdbg_done
      then some (true, end_dialog w_param ∷ [], w)
      else if id == idcancel
      then some (true, end_dialog w_param ∷ [], w)
      else some (false, [], w)
  raw_dbg_dlg_proc other_msg w = some (false, [], w)

  -- The messages of a session, in order.
  unfoldable pub raw_session : List RawMsg → W → Option (List RawDlgEvent × W)
  raw_session [] w = some ([], w)
  raw_session (msg ∷ msgs) w = do
    (handled, told, w') ← raw_dbg_dlg_proc msg w
    (later, w'') ← raw_session msgs w'
    some (told ++ later, w'')

-- The commands that the raw debug interface knows.
abbrev pub IsRawCommand : Command → Type 0
IsRawCommand (Command.echo payload) = Unit {0}
IsRawCommand (Command.cpu_mem_rd addr n) = Unit {0}
IsRawCommand (Command.cpu_mem_wr addr payload) = Unit {0}
IsRawCommand _ = ⊥

raw_debug_packet-known : (c : Command) → IsRawCommand c → raw_debug_packet c ≡ some (packet_of c)
raw_debug_packet-known (Command.echo payload) h = refl
raw_debug_packet-known (Command.cpu_mem_rd addr n) h = refl
raw_debug_packet-known (Command.cpu_mem_wr addr payload) h = refl
raw_debug_packet-known _ h = absurd h

state_after-raw : (c : Command) → IsRawCommand c → state_after c ≡ HciState.decode
state_after-raw Command.dbg_run h = absurd h
state_after-raw _ h = refl

cfg_after-raw : (cfg : ℕ) (c : Command) → IsRawCommand c → cfg_after cfg c ≡ cfg
cfg_after-raw cfg (Command.cart_set_cfg v w x y z) h = absurd h
cfg_after-raw cfg _ h = refl

-- The user sends commands, one after the other.
abbrev pub sends : List Command → List RawMsg
sends [] = []
sends (c ∷ cs) = command idc_rawdbg_send (show_bytes (encode c)) ∷ sends cs

-- What is shown of them.
abbrev pub answers : Board → List Event → List Command → List RawDlgEvent
answers b trace [] = []
answers b trace (c ∷ cs) =
    answered (shown (show_bytes (replied (effects b trace c))))
    ∷ answers b (trace ++ effects b trace c) cs

abbrev pub IsRawSession : (List ℕ → ℕ) → List Command → Type 0
IsRawSession budget = All (λ c. IsWellFormed c × IsRawCommand c × (budget (encode c) ≡ clocks c))

-- The texts of well-formed echoes and CPU memory accesses, sent from the raw debug dialog one after the
-- other while the FPGA is halted and idle, and each given the clocks of its command: the dialog shows
-- for each one exactly the bytes that the FPGA answered, in the order of the texts; the board saw
-- exactly the effects of the commands, in that order; all that the FPGA ever sent was received, and it
-- is halted and idle again with its cartridge configuration unchanged.
pub raw_session-halted :
    (debug : Bool) (garbage : ℕ → ℕ) (idcancel : ℕ) (b : Board) (budget : List ℕ → ℕ)
    (cs : List Command) (s : Scratch) (err cfg : ℕ) (trace : List Event)
    → IsRawSession budget cs
    → (s' : Scratch) × (raw_session debug garbage idcancel
          (fpga_link b budget)
          (sends cs)
          (fpga HciState.decode s err cfg [] trace, length (replied trace))
        ≡ some (
          answers b trace cs,
          (
            fpga HciState.decode s' err cfg [] (history b trace cs),
            length (replied (history b trace cs)),
          ),
        ))
unfolding raw_session raw_dbg_dlg_proc
raw_session-halted debug garbage idcancel b budget [] s err cfg trace h = (s, refl)
raw_session-halted debug garbage idcancel b budget (c ∷ cs) s err cfg trace ((wf, raw, enough), h) =
    let (s', first) =
      raw_send-halted debug garbage b budget c s err cfg trace wf (raw_debug_packet-known c raw)
        enough in
    let first' = rw (state_after-raw c raw, cfg_after-raw cfg c raw) at first in
    let (s'', later) =
      raw_session-halted debug garbage idcancel b budget cs s' err cfg (trace ++ effects b trace c)
        h in
    (s'', rw first' (rw later refl))
