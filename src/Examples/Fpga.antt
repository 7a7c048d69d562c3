-- ===== src/Examples/Fpga.antt =====
-- The interface of the FPGA on short sessions.
use fpga_nes.Prelude.{some, ℕ, ◌+◌, ◌≡◌, ◌≢◌, List, [], ◌∷◌, arith, length}
use fpga_nes.Protocol.{Command, op_dbg_hlt}
use fpga_nes.Hci.{HciState}
use fpga_nes.Link.{cpu_write, reply, run}
use fpga_nes.Link.Clocks.{Scratch, fpga}
use fpga_nes.Link.Deliver.{deliver}
use fpga_nes.Link.Running.{running-session}
use fpga_nes.Link.Replies.{replied}
use fpga_nes.Link.Answers.{run-return_bytes_expected}
use fpga_nes.Packet.{return_bytes_expected}
use fpga_nes.Packet.Wire.{packet_of}
use fpga_nes.Examples.{board, idle}

deliver_example :
    (s' : Scratch) × (run board 7 (
        fpga HciState.decode idle 0 0
          (0x02 ∷ 0x00 ∷ 0x03 ∷ 0x02 ∷ 0x00 ∷ 0xA9 ∷ 0x01 ∷ 0x07 ∷ [])
          [])
      ≡ fpga HciState.decode s' 0 0 (0x07 ∷ []) (cpu_write 0x300 0xA9 ∷ cpu_write 0x301 0x01 ∷ []))
deliver_example =
    deliver board idle 0 0 (Command.cpu_mem_wr 0x300 (0xA9 ∷ 0x01 ∷ [])) (0x07 ∷ []) []
      (omega arith, omega arith, (omega arith, (omega arith, tt)))

-- A break to a running machine, a read of two bytes, a register write, and the machine runs again.
abbrev session : List Command
session = Command.cpu_mem_rd 0x12 2 ∷ Command.cpu_reg_wr 0 0x80 ∷ []

not_a_break : 0x07 ≢ op_dbg_hlt
not_a_break e = absurd (omega arith)

not_a_break' : 0x02 ≢ op_dbg_hlt
not_a_break' e = absurd (omega arith)

running-session_example :
    (s' : Scratch) × (run board 5
        (fpga HciState.disabled idle 0 7 (0x02 ∷ 0x07 ∷ 0x03 ∷ 0x07 ∷ 0x04 ∷ []) [])
      ≡ fpga HciState.disabled s' 0 7 [] (reply 0 ∷ reply 1 ∷ []))
running-session_example =
    running-session board 0 7 (0x02 ∷ 0x07 ∷ []) (Command.query_hlt ∷ []) idle []
      (not_a_break', (not_a_break, tt)) ((tt, tt), tt)

run-return_bytes_expected_example :
    (n : ℕ) × (return_bytes_expected (packet_of (Command.cpu_mem_rd 0x12 2)) ≡ some n)
    × (length (
          replied
            (run board 9
              (fpga HciState.decode idle 0 0 (0x01 ∷ 0x12 ∷ 0x00 ∷ 0x02 ∷ 0x00 ∷ []) [])).trace)
        ≡ 0 + n)
run-return_bytes_expected_example =
    run-return_bytes_expected board idle 0 0 (Command.cpu_mem_rd 0x12 2) [] []
      (omega arith, omega arith)
