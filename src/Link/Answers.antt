-- ===== src/Link/Answers.antt =====
-- The lengths of answers: the packets of sw/src/dbgpacket.cpp against the interface of hw/src/hci/hci.v.
use fpga_nes.Prelude.{ℕ, ◌+◌, ◌≡◌, ap, ◌∙◌, some, List, ◌++◌, length, length-append}
use fpga_nes.Protocol.{Command, IsWellFormed, encode, reply_length}
use fpga_nes.Packet.{return_bytes_expected}
use fpga_nes.Packet.Wire.{packet_of, return_bytes_expected-packet_of}
use fpga_nes.Hci.{HciState}
use fpga_nes.Link.{Event, Board, run}
use fpga_nes.Link.Clocks.{Scratch, fpga}
use fpga_nes.Link.Effects.{effects, clocks}
use fpga_nes.Link.Deliver.{deliver}
use fpga_nes.Link.Replies.{replied, replied-append, length-replied-effects}

-- A well-formed command in the receive queue of a halted FPGA, with no byte late: once its clocks have
-- passed, the FPGA has sent as many bytes as `ReturnBytesExpected` of the command's packet says, no more
-- and no fewer.
pub run-return_bytes_expected :
    (b : Board) (s : Scratch) (err cfg : ℕ) (c : Command) (rest : List ℕ) (trace : List Event)
    → IsWellFormed c
    → (n : ℕ) × (return_bytes_expected (packet_of c) ≡ some n)
      × (length (
            replied
              (run b (clocks c) (fpga HciState.decode s err cfg (encode c ++ rest) trace)).trace)
          ≡ length (replied trace) + n)
run-return_bytes_expected b s err cfg c rest trace wf =
    let (s', done) = deliver b s err cfg c rest trace wf in
    (
      reply_length c,
      return_bytes_expected-packet_of c,
      ap (λ f. length (replied f.trace)) done
          ∙ ap length (replied-append trace (effects b trace c))
          ∙ length-append (replied trace) (replied (effects b trace c))
          ∙ ap (λ n. length (replied trace) + n) (length-replied-effects b trace c),
    )
