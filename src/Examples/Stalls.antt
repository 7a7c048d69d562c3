-- ===== src/Examples/Stalls.antt =====
-- The interface of the FPGA on a line that stalls, and its registers after a clock.
use fpga_nes.Prelude.{ℕ, zero, suc, ◌≤◌, ◌≡◌, refl, true, false, List, [], ◌∷◌, arith, All}
use fpga_nes.Hci.{Inputs, HciState, reset, cycle}
use fpga_nes.Hci.Ranges.{AreBytes, IsInRange, at_reset, next, Reaches-IsInRange}
use fpga_nes.Protocol.{Command}
use fpga_nes.Link.{Wires, Fpga, quiet, run, reg_write}
use fpga_nes.Link.Clocks.{Scratch, fpga}
use fpga_nes.Link.Schedule.{settle, IsCalm, run_on, ready_clocks, run_on_lem}
use fpga_nes.Link.Stalls.{session-finishes}
use fpga_nes.Examples.{board, idle}

abbrev pub stalled : Wires
stalled = record { rx_ready = false; tx_full = true; parity_err = false; brk = false }

-- Every other clock is ready.
abbrev pub stuttering : ℕ → List Wires
stuttering zero = []
stuttering (suc n) = stalled ∷ quiet ∷ stuttering n

pub ready_clocks-stuttering : (n : ℕ) → ready_clocks (stuttering n) ≡ n
ready_clocks-stuttering zero = refl
ready_clocks-stuttering (suc n) = omega (arith, ready_clocks-stuttering n)

pub IsCalm-stuttering : (n : ℕ) → All IsCalm (stuttering n)
IsCalm-stuttering zero = tt
IsCalm-stuttering (suc n) = ((refl, refl), ((refl, refl), IsCalm-stuttering n))

abbrev asking : Fpga
asking = fpga HciState.decode idle 0 7 (0x05 ∷ 0x03 ∷ []) []

run_on_lem_example :
    (k : ℕ) × (2 ≤ k)
    × (k ≤ 4)
    × (settle (run_on board (stuttering 2) asking) ≡ settle (run board k asking))
run_on_lem_example = run_on_lem board (stuttering 2) asking (IsCalm-stuttering 2)

session-finishes_example :
    (s' : Scratch) × (settle (
        run_on board
          (stuttering 5)
          (fpga HciState.disabled idle 0 7 (0x03 ∷ 0x06 ∷ 0x00 ∷ 0x80 ∷ 0x04 ∷ []) []))
      ≡ settle (fpga HciState.disabled s' 0 7 [] (reg_write 0 0x80 ∷ [])))
session-finishes_example =
    session-finishes board (stuttering 5) 0 true (Command.cpu_reg_wr 0 0x80 ∷ []) idle 7 []
      (IsCalm-stuttering 5) (((omega arith, omega arith), tt), tt) (omega arith)

-- An opcode on the wires: a read of a register.
abbrev opcode : Inputs
opcode = record {
  rx_empty = false;
  rd_data = 0x05;
  tx_full = false;
  parity_err = false;
  brk = false;
  cpu_din = 0xFF;
  cpu_dbgreg_in = λ r. 0x40;
  ppu_vram_din = 0xFF;
}

opcode-AreBytes : AreBytes opcode
opcode-AreBytes = record {
  rd_byte = omega arith;
  cpu_byte = omega arith;
  reg_byte = λ r. omega arith;
  ppu_byte = omega arith;
}

Reaches-IsInRange_example : IsInRange (cycle opcode reset).0
Reaches-IsInRange_example =
    Reaches-IsInRange (cycle opcode reset).0 (next opcode reset opcode-AreBytes at_reset)
