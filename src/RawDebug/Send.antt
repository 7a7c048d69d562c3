-- ===== src/RawDebug/Send.antt =====
-- The "Send" button of the raw debug dialog, `NesDbg::RawDbgDlgProc` in sw/src/nesdbg.cpp: the packet
-- of the text is sent, and its reply is shown as text.
use fpga_nes.Prelude.{ℕ, ◌≡◌, sym, ap, ◌∙◌, Bool, Option, some, none, List, [], ◌++◌, length, ◌>>=◌}
use fpga_nes.Protocol.{Command, IsWellFormed, encode, reply_length}
use fpga_nes.Packet.{DbgPacket, return_bytes_expected}
use fpga_nes.Packet.Wire.{packet_of, return_bytes_expected-packet_of}
use fpga_nes.Host.{prefix?, prefix?-length}
use fpga_nes.Hci.{HciState}
use fpga_nes.Link.{Event, Board, Fpga}
use fpga_nes.Link.Clocks.{Scratch, fpga}
use fpga_nes.Link.Effects.{effects, cfg_after, state_after, clocks}
use fpga_nes.Link.Deliver.{deliver}
use fpga_nes.Link.Replies.{replied, length-replied-effects}
use fpga_nes.ScriptMgr.{Link, transmit, receive_reply}
use fpga_nes.ScriptMgr.Exchange.{transmit_lem, receive_reply_lem, sent, reply_of}
use fpga_nes.ScriptMgr.Halted.{fpga_link, reply_lem}
use fpga_nes.RawDebug.{create_obj_from_string, show_bytes}
use fpga_nes.RawDebug.RoundTrip.{raw_debug_packet, create_obj-show}

-- What the dialog shows: a reply, with the input cleared, or the message "Invalid data.".
pub data RawOutcome : Type 0 where
  shown : List ℕ → RawOutcome
  invalid_data : RawOutcome

module _ (debug : Bool) (garbage : ℕ → ℕ) {W : Type 0} (link : Link W) where
  pub raw_exchange : Option DbgPacket → W → Option (RawOutcome × W)
  raw_exchange none w = some (invalid_data, w)
  raw_exchange (some p) w = do
    w' ← transmit debug garbage link p w
    (received, w'') ← receive_reply debug garbage link p w'
    n ← return_bytes_expected p
    bytes ← prefix? n received
    some (shown (show_bytes bytes), w'')

  unfoldable pub raw_send : List ℕ → W → Option (RawOutcome × W)
  raw_send text w = do made ← create_obj_from_string garbage text; raw_exchange made w

  raw_exchange_lem :
      (c : Command) (w : W)
      → length (reply_of debug garbage link c w).0 ≡ reply_length c
      → raw_exchange (some (packet_of c)) w
        ≡ some (
          shown (show_bytes (reply_of debug garbage link c w).0),
          (reply_of debug garbage link c w).1,
        )
  unfolding raw_exchange
  raw_exchange_lem c w h = rw (transmit_lem debug garbage link c w) (
      rw (receive_reply_lem debug garbage link c (sent debug garbage link c w) h) (
        rw (return_bytes_expected-packet_of c) (
          rw (
            ap (λ n. prefix? n (reply_of debug garbage link c w).0) (sym h)
            ∙ prefix?-length (reply_of debug garbage link c w).0))))

-- The text of a well-formed echo or CPU memory access, sent while the FPGA is halted and idle: the
-- dialog shows exactly the bytes that the FPGA answered this command with, the board saw exactly the
-- effects of that command, all that the FPGA ever sent was received, and the FPGA is idle again.
pub raw_send-halted :
    (debug : Bool) (garbage : ℕ → ℕ) (b : Board) (budget : List ℕ → ℕ) (c : Command) (s : Scratch)
    (err cfg : ℕ) (trace : List Event)
    → IsWellFormed c
    → raw_debug_packet c ≡ some (packet_of c)
    → budget (encode c) ≡ clocks c
    → (s' : Scratch) × (raw_send debug garbage
          (fpga_link b budget)
          (show_bytes (encode c))
          (fpga HciState.decode s err cfg [] trace, length (replied trace))
        ≡ some (
          shown (show_bytes (replied (effects b trace c))),
          (
            fpga (state_after c) s' err (cfg_after cfg c) [] (trace ++ effects b trace c),
            length (replied (trace ++ effects b trace c)),
          ),
        ))
unfolding raw_send
raw_send-halted debug garbage b budget c s err cfg trace wf known enough =
    let w : Fpga × ℕ = (fpga HciState.decode s err cfg [] trace, length (replied trace)) in
    let (s', delivered) = deliver b s err cfg c [] trace wf in
    let got = reply_lem debug garbage b budget c s s' err cfg trace enough delivered in
    (
      s',
      rw (create_obj-show garbage c wf ∙ ap some known) (
          raw_exchange_lem debug garbage (fpga_link b budget) c w
            (ap (λ x. length x.0) got ∙ length-replied-effects b trace c)
          ∙ ap (λ x. some (shown (show_bytes x.0), x.1)) got),
    )
