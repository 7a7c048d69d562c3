-- ===== src/Uart/Runs.antt =====
-- Runs of the interface with the queues of its UART, hw/src/hci/hci.v and hw/src/cmn/uart/uart.v.
use fpga_nes.Prelude.{ℕ, ◌≡◌, ap, ◌∙◌, List, [], ◌∷◌, ◌++◌, append-nil}
use fpga_nes.Link.{Board, Wires}
use fpga_nes.Link.Schedule.{run_on}
use fpga_nes.Fifo.Queue.{Holds}
use fpga_nes.Uart.{Line, System, system_clock, run_system, received}
use fpga_nes.Uart.Refines.{view, wires_of, clock-wires_of, system_clock-Holds}

-- What the interface sees of a run.
unfoldable pub schedule : Board → List Line → System → List Wires
schedule b [] s = []
schedule b (l ∷ ls) s = wires_of l s ∷ schedule b ls (system_clock b l s)

-- The interface with its UART, whose receive queue holds `xs`, over any clocks, whatever the line does: it
-- does exactly what the interface does on a list of bytes, which holds `xs` and the bytes that the queue
-- took in over these clocks, when the next byte is late wherever the queue says that it is empty and the
-- transmit queue is full wherever it says so; and what is left of the list is what the queue holds.
pub run_system-run_on :
    (b : Board) (ls : List Line) (s : System) (xs : List ℕ)
    → Holds 3 s.uart.rx_fifo xs
    → (ys : List ℕ) × Holds 3 (run_system b ls s).uart.rx_fifo ys
      × (run_on b (schedule b ls s) (view s (xs ++ received b ls s)) ≡ view (run_system b ls s) ys)
unfolding run_on run_system received schedule
run_system-run_on b [] s xs h = (xs, h, ap (view s) (append-nil xs))
run_system-run_on b (l ∷ ls) s xs h =
    let (ys, held, same) =
      run_system-run_on b ls (system_clock b l s) _ (system_clock-Holds b l s xs h) in
    (
      ys,
      held,
      ap (run_on b (schedule b ls (system_clock b l s)))
            (clock-wires_of b l s xs (received b ls (system_clock b l s)) h)
          ∙ same,
    )
