-- ===== src/Examples/Fifo.antt =====
-- The queue of the UART, with eight places, over a few clocks.
use fpga_nes.Prelude.{ℕ, ◌≤◌, ◌≡◌, refl, true, false, List, [], ◌∷◌, ◌++◌, length, arith}
use fpga_nes.Fifo.{Fifo, FifoInputs, depth, step, rd_en_prot, wr_en_prot}
use fpga_nes.Fifo.Queue.{Holds, after}
use fpga_nes.Fifo.Order.{run_fifo, reset-Holds, step-Holds, run_fifo-order}
use fpga_nes.Fifo.Flags.{AreExact, step-AreExact, step-hides}

abbrev switched_on : Fifo
switched_on = record { rd_ptr = 5; wr_ptr = 2; empty = false; full = true; data_array = λ i. 0xEE }

abbrev resets : FifoInputs
resets = record { rst = true; rd_en = false; wr_en = false; wr_data = 0 }

abbrev writes : FifoInputs
writes = record { rst = false; rd_en = false; wr_en = true; wr_data = 0x41 }

abbrev reads : FifoInputs
reads = record { rst = false; rd_en = true; wr_en = false; wr_data = 0 }

abbrev crosses : FifoInputs
crosses = record { rst = false; rd_en = true; wr_en = true; wr_data = 0x42 }

-- After a reset, and after one byte.
abbrev cleared : Fifo
cleared = step 3 resets switched_on

abbrev one_byte : Fifo
one_byte = step 3 writes cleared

cleared-Holds : Holds 3 cleared []
cleared-Holds = reset-Holds 3 resets switched_on (omega arith) refl

cleared-AreExact : AreExact 3 cleared []
unfolding step
cleared-AreExact = record { empty_exact = refl; full_exact = refl }

one_byte-Holds : Holds 3 one_byte (0x41 ∷ [])
unfolding step
one_byte-Holds = step-Holds 3 writes cleared [] (omega arith) refl cleared-Holds

one_byte-AreExact : AreExact 3 one_byte (0x41 ∷ [])
unfolding step
one_byte-AreExact = record { empty_exact = refl; full_exact = refl }

run_fifo-order_example :
    (ys : List ℕ) × Holds 3 (run_fifo 3 (writes ∷ crosses ∷ reads ∷ []) cleared).2 ys
    × ([] ++ (run_fifo 3 (writes ∷ crosses ∷ reads ∷ []) cleared).1
        ≡ (run_fifo 3 (writes ∷ crosses ∷ reads ∷ []) cleared).0 ++ ys)
    × (length ys ≤ depth 3)
run_fifo-order_example =
    run_fifo-order 3 (writes ∷ crosses ∷ reads ∷ []) cleared [] (omega arith)
      (refl, (refl, (refl, tt))) cleared-Holds

step-AreExact_example :
    AreExact 3
      (step 3 writes cleared)
      (after (rd_en_prot writes cleared) (wr_en_prot writes cleared) 0x41 [])
step-AreExact_example =
    step-AreExact 3 writes cleared [] (omega arith) refl cleared-Holds cleared-AreExact refl

-- The byte 0x42 is in the queue, which says for two clocks that it is empty.
step-hides_example :
    Holds 3 (step 3 crosses one_byte) (0x42 ∷ [])
    × ((step 3 crosses one_byte).empty ≡ true)
    × ((run_fifo 3 (reads ∷ reads ∷ []) (step 3 crosses one_byte)).0 ≡ [])
    × ((run_fifo 3 (reads ∷ reads ∷ []) (step 3 crosses one_byte)).2.empty ≡ true)
step-hides_example =
    step-hides 3 crosses one_byte 0x41 (reads ∷ reads ∷ []) (omega arith) refl one_byte-Holds
      one_byte-AreExact refl refl ((refl, refl), ((refl, refl), tt))
