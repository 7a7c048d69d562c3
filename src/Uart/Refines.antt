-- ===== src/Uart/Refines.antt =====
-- The interface with the queues of its UART, hw/src/hci/hci.v and hw/src/cmn/uart/uart.v, against the
-- interface on a list of bytes and wires that stall.
use fpga_nes.Prelude.{
  ℕ, ◌≡◌, refl, sym, ap, ap₂, ◌∙◌, Bool, true, false, not, ◌&&◌, Bool-cases, inl, inr, List, [],
  ◌∷◌, ◌++◌, append_assoc, arith, if◌then◌else◌,
}
use fpga_nes.Hci.{Regs, Inputs, cycle}
use fpga_nes.Link.{Event, Board, Wires, Fpga, inputs, observe, behind, clock}
use fpga_nes.Fifo.{rd_data, rd_en_prot, wr_en_prot}
use fpga_nes.Fifo.Queue.{Holds, after}
use fpga_nes.Fifo.Order.{step-Holds, rd_data_lem}
use fpga_nes.Uart.{Line, System, rx_wires, uart_inputs, system_clock}
use fpga_nes.Uart.Stalls.{cycle-blank}

-- The interface, with a list in place of the receive queue.
abbrev pub view : System → List ℕ → Fpga
view s rx = record { regs = s.regs; rx = rx; trace = s.trace }

-- A clock by its input wires.
abbrev out_of : Inputs → System → List ℕ → Fpga
out_of i s rx = record {
  regs = (cycle i s.regs).0;
  rx = if (cycle i s.regs).1.rd_en then behind rx else rx;
  trace = observe i s.regs (cycle i s.regs).1 (cycle i s.regs).0 s.trace;
}

-- The wires of a clock as the interface sees them.
abbrev pub wires_of : Line → System → Wires
wires_of l s = record {
  rx_ready = not s.uart.rx_fifo.empty;
  tx_full = s.uart.tx_fifo.full;
  parity_err = s.uart.parity_err;
  brk = l.brk;
}

fpga_path :
    (r r' : Regs) (x x' : List ℕ) (t t' : List Event)
    → r ≡ r'
    → x ≡ x'
    → t ≡ t'
    → ◌≡◌ {A = Fpga}
        (record { regs = r; rx = x; trace = t })
        (record { regs = r'; rx = x'; trace = t' })
fpga_path r r' x x' t t' p q u =
    ap₂ (λ a c. record { regs = a; rx = x; trace = c }) p u
    ∙ ap (λ y. record { regs = r'; rx = y; trace = t' }) q

abbrev joined : Bool → ℕ → List ℕ → List ℕ
joined wr v more = (if wr then v ∷ [] else []) ++ more

-- The list after a clock that may take the first byte.
take_first :
    (r wr e : Bool) (v x : ℕ) (xs more : List ℕ)
    → e ≡ false
    → (if r then behind (x ∷ (xs ++ joined wr v more)) else x ∷ (xs ++ joined wr v more))
      ≡ after (r && not e) wr v (x ∷ xs) ++ more
take_first true wr true v x xs more off = absurd (cc)
take_first false wr true v x xs more off = absurd (cc)
take_first true wr false v x xs more off = sym (append_assoc xs (if wr then v ∷ [] else []) more)
take_first false wr false v x xs more off =
    ap (λ l. x ∷ l) (sym (append_assoc xs (if wr then v ∷ [] else []) more))

take_none :
    (r r' wr e : Bool) (v : ℕ) (xs more : List ℕ)
    → e ≡ true
    → r ≡ false
    → (if r then behind (xs ++ joined wr v more) else xs ++ joined wr v more)
      ≡ after (r' && not e) wr v xs ++ more
take_none true r' wr e v xs more on off = absurd (cc)
take_none false r' wr false v xs more on off = absurd (cc)
take_none false true wr true v xs more on off =
    sym (append_assoc xs (if wr then v ∷ [] else []) more)
take_none false false wr true v xs more on off =
    sym (append_assoc xs (if wr then v ∷ [] else []) more)

module _ (b : Board) where
  clock_out :
      (w : Wires) (s : System) (rx : List ℕ)
      → clock b w (view s rx) ≡ out_of (inputs b w (view s rx)) s rx
  unfolding clock
  clock_out w s rx = refl

  -- The wires with the level of `rx_ready`, and the inputs of the UART with what its queue shows.
  abbrev ready_wires : Bool → Line → System → Wires
  ready_wires ready l s = record {
    rx_ready = ready;
    tx_full = s.uart.tx_fifo.full;
    parity_err = s.uart.parity_err;
    brk = l.brk;
  }

  abbrev shown_inputs : Bool → ℕ → Line → System → Inputs
  shown_inputs e d l s = record {
    rx_empty = e;
    rd_data = d;
    tx_full = s.uart.tx_fifo.full;
    parity_err = s.uart.parity_err;
    brk = l.brk;
    cpu_din = b.cpu_din s.trace s.regs.addr;
    cpu_dbgreg_in = b.dbgreg s.trace;
    ppu_vram_din = b.ppu_din s.trace s.regs.addr;
  }

  abbrev fifo_after : Line → System → List ℕ → List ℕ
  fifo_after l s xs =
      let w = rx_wires (cycle (uart_inputs b l s) s.regs).1.rd_en l in
      after (rd_en_prot w s.uart.rx_fifo) (wr_en_prot w s.uart.rx_fifo) l.rx_byte xs

  abbrev taken_in : Line → System → List ℕ → List ℕ
  taken_in l s more = joined (l.rx_done_tick && not s.uart.rx_fifo.full) l.rx_byte more

  ready_clock :
      (l : Line) (s : System) (x : ℕ) (xs more : List ℕ)
      → Holds 3 s.uart.rx_fifo (x ∷ xs)
      → s.uart.rx_fifo.empty ≡ false
      → clock b (wires_of l s) (view s (x ∷ (xs ++ taken_in l s more)))
        ≡ view (system_clock b l s) (fifo_after l s (x ∷ xs) ++ more)
  unfolding system_clock
  ready_clock l s x xs more h e =
      let rx = x ∷ (xs ++ taken_in l s more) in
      let same : inputs b (wires_of l s) (view s rx) ≡ uart_inputs b l s =
        ap (λ r. inputs b (ready_wires r l s) (view s rx)) (ap not e)
        ∙ ap₂ (λ c d. shown_inputs c d l s) (sym e) (sym (rd_data_lem 3 s.uart.rx_fifo x xs h)) in
      clock_out (wires_of l s) s rx
      ∙ ap (λ i. out_of i s rx) same
      ∙ fpga_path _ _ _ _ _ _ refl
          (take_first (cycle (uart_inputs b l s) s.regs).1.rd_en
            (l.rx_done_tick && not s.uart.rx_fifo.full) s.uart.rx_fifo.empty l.rx_byte x xs more e)
          refl

  stalled_clock :
      (l : Line) (s : System) (xs more : List ℕ)
      → s.uart.rx_fifo.empty ≡ true
      → clock b (wires_of l s) (view s (xs ++ taken_in l s more))
        ≡ view (system_clock b l s) (fifo_after l s xs ++ more)
  unfolding system_clock
  stalled_clock l s xs more e =
      let rx = xs ++ taken_in l s more in
      let idle : inputs b (wires_of l s) (view s rx) ≡ shown_inputs true b.idle_data l s =
        ap (λ r. inputs b (ready_wires r l s) (view s rx)) (ap not e) in
      let shown : shown_inputs true (rd_data s.uart.rx_fifo) l s ≡ uart_inputs b l s =
        ap (λ c. shown_inputs c (rd_data s.uart.rx_fifo) l s) (sym e) in
      let (regs, off, off', seen) =
        cycle-blank s.regs b.idle_data (rd_data s.uart.rx_fifo) s.uart.tx_fifo.full
          s.uart.parity_err l.brk (b.cpu_din s.trace s.regs.addr) (b.dbgreg s.trace)
          (b.ppu_din s.trace s.regs.addr) s.trace in
      clock_out (wires_of l s) s rx
      ∙ ap (λ i. out_of i s rx) idle
      ∙ fpga_path _ _ _ _ _ _ (regs ∙ ap (λ i. (cycle i s.regs).0) shown)
          (take_none _ (cycle (uart_inputs b l s) s.regs).1.rd_en
            (l.rx_done_tick && not s.uart.rx_fifo.full) s.uart.rx_fifo.empty l.rx_byte xs more e
            off)
          (seen ∙ ap (λ i. observe i s.regs (cycle i s.regs).1 (cycle i s.regs).0 s.trace) shown)

  -- One clock of both is one clock of the interface on the list of its bytes.
  pub clock-wires_of :
      (l : Line) (s : System) (xs more : List ℕ)
      → Holds 3 s.uart.rx_fifo xs
      → clock b (wires_of l s) (view s (xs ++ taken_in l s more))
        ≡ view (system_clock b l s) (fifo_after l s xs ++ more)
  clock-wires_of l s xs more h = elim (Bool-cases s.uart.rx_fifo.empty) [
    | inl e ↦ stalled_clock l s xs more e
    | inr e ↦ not_empty_clock xs h e
  ]
    where
      not_empty_clock :
          (xs : List ℕ)
          → Holds 3 s.uart.rx_fifo xs
          → s.uart.rx_fifo.empty ≡ false
          → clock b (wires_of l s) (view s (xs ++ taken_in l s more))
            ≡ view (system_clock b l s) (fifo_after l s xs ++ more)
      not_empty_clock [] h e = absurd (omega (arith, h.if_not_empty e))
      not_empty_clock (x ∷ xs) h e = ready_clock l s x xs more h e

  pub system_clock-Holds :
      (l : Line) (s : System) (xs : List ℕ)
      → Holds 3 s.uart.rx_fifo xs
      → Holds 3 (system_clock b l s).uart.rx_fifo (fifo_after l s xs)
  unfolding system_clock
  system_clock-Holds l s xs h =
      step-Holds 3 (rx_wires (cycle (uart_inputs b l s) s.regs).1.rd_en l) s.uart.rx_fifo xs
        (omega arith) refl h
