-- ===== src/Uart/Room.antt =====
-- The transmit queue of hw/src/cmn/uart/uart.v and the bytes that hw/src/hci/hci.v hands to it, one clock
-- after it decides to send them.
use fpga_nes.Prelude.{ℕ, ◌%◌, ◌≡◌, refl, Bool, true, false, List, [], ◌∷◌, arith, ◌==◌}
use fpga_nes.Hci.{HciState, Regs, Inputs, cycle}
use fpga_nes.Link.{Board}
use fpga_nes.Fifo.{Fifo, rd_data, step}
use fpga_nes.Fifo.Order.{accepted}
use fpga_nes.Uart.{Line, System, tx_wires, uart_inputs, system_clock, run_system}

-- The states that look at the transmit queue before they send.
abbrev pub IsGuarded : HciState → Type 0
IsGuarded HciState.cpu_mem_rd_stg_1 = Unit {0}
IsGuarded HciState.ppu_mem_rd_stg_1 = Unit {0}
IsGuarded HciState.cpu_reg_rd = Unit {0}
IsGuarded HciState.query_err_code = Unit {0}
IsGuarded _ = ⊥

-- Where such a state may send in this clock, no byte of the clock before is on its way to the queue.
abbrev IsPacedAt : HciState → ℕ → Bool → Type 0
IsPacedAt HciState.cpu_mem_rd_stg_1 ec wr = (ec % 2 == 0) ≡ false → wr ≡ false
IsPacedAt HciState.ppu_mem_rd_stg_1 ec wr = (ec % 2 == 0) ≡ false → wr ≡ false
IsPacedAt HciState.cpu_reg_rd ec wr = wr ≡ false
IsPacedAt HciState.query_err_code ec wr = wr ≡ false
IsPacedAt _ ec wr = Unit {0}

abbrev pub IsPaced : Regs → Type 0
IsPaced q = IsPacedAt q.state q.execute_cnt q.wr_en

fields-IsPaced :
    (i : Inputs) (st : HciState) (dc ec addr err cfg : ℕ) (upd : Bool) (tx : ℕ) (wr : Bool)
    → IsPaced
        (cycle i (record {
          state = st;
          decode_cnt = dc;
          execute_cnt = ec;
          addr = addr;
          err_code = err;
          cart_cfg = cfg;
          cart_cfg_upd = upd;
          tx_data = tx;
          wr_en = wr;
        })).0
unfolding cycle
fields-IsPaced i st dc ec addr err cfg upd tx wr = ground arith

pub cycle-IsPaced : (i : Inputs) (q : Regs) → IsPaced (cycle i q).0
cycle-IsPaced i q =
    fields-IsPaced i q.state q.decode_cnt q.execute_cnt q.addr q.err_code q.cart_cfg q.cart_cfg_upd
      q.tx_data q.wr_en

-- A guarded state that sends has room in the queue, and nothing on its way there.
sends_fields :
    (i : Inputs) (st : HciState) (dc ec addr err cfg : ℕ) (upd : Bool) (tx : ℕ) (wr : Bool)
    → IsGuarded st
    → IsPacedAt st ec wr
    → (cycle i (record {
      state = st;
      decode_cnt = dc;
      execute_cnt = ec;
      addr = addr;
      err_code = err;
      cart_cfg = cfg;
      cart_cfg_upd = upd;
      tx_data = tx;
      wr_en = wr;
    })).0.wr_en
      ≡ true
    → (i.tx_full ≡ false) × (wr ≡ false)
unfolding cycle
sends_fields i HciState.cpu_mem_rd_stg_1 dc ec addr err cfg upd tx wr guarded paced sends =
    ground arith
sends_fields i HciState.ppu_mem_rd_stg_1 dc ec addr err cfg upd tx wr guarded paced sends =
    ground arith
sends_fields i HciState.cpu_reg_rd dc ec addr err cfg upd tx wr guarded paced sends = ground arith
sends_fields i HciState.query_err_code dc ec addr err cfg upd tx wr guarded paced sends =
    ground arith
sends_fields i _ dc ec addr err cfg upd tx wr guarded paced sends = absurd guarded

-- A queue that is not full and is not written does not become full.
stays_open :
    (l : Line) (q : Regs) (f : Fifo)
    → f.full ≡ false
    → q.wr_en ≡ false
    → (step 3 (tx_wires q l) f).full ≡ false
unfolding step
stays_open l q f room quiet = rw quiet (rw room (ground arith))

module _ (b : Board) where
  guarded_clock :
      (l : Line) (s : System)
      → IsPaced s.regs
      → IsGuarded s.regs.state
      → (system_clock b l s).regs.wr_en ≡ true
      → (system_clock b l s).uart.tx_fifo.full ≡ false
  unfolding system_clock
  guarded_clock l s paced guarded sends =
      let (room, quiet) =
        sends_fields (uart_inputs b l s) s.regs.state s.regs.decode_cnt s.regs.execute_cnt
          s.regs.addr s.regs.err_code s.regs.cart_cfg s.regs.cart_cfg_upd s.regs.tx_data
          s.regs.wr_en guarded paced sends in
      stays_open l s.regs s.uart.tx_fifo room quiet

  run_system-IsPaced :
      (ls : List Line) (s : System) → IsPaced s.regs → IsPaced (run_system b ls s).regs
  unfolding run_system system_clock
  run_system-IsPaced [] s h = h
  run_system-IsPaced (l ∷ ls) s h =
      run_system-IsPaced ls (system_clock b l s) (cycle-IsPaced (uart_inputs b l s) s.regs)

-- From registers that are paced, as those of the reset and those after any clock are, at any time, whatever
-- the line and the transmit queue do: when a memory read, a register read or a query of the error code
-- sends a byte, the transmit queue takes it in the next clock, so that none of their bytes is lost.
pub run_system-room :
    (b : Board) (ls : List Line) (l l' : Line) (s : System)
    → IsPaced s.regs
    → IsGuarded (run_system b ls s).regs.state
    → (system_clock b l (run_system b ls s)).regs.wr_en ≡ true
    → accepted
        (tx_wires (system_clock b l (run_system b ls s)).regs l')
        (system_clock b l (run_system b ls s)).uart.tx_fifo
      ≡ (system_clock b l (run_system b ls s)).regs.tx_data ∷ []
run_system-room b ls l l' s paced guarded sends =
    let room =
      guarded_clock b l (run_system b ls s) (run_system-IsPaced b ls s paced) guarded sends in
    rw sends (rw room refl)

echo_clock :
    (i : Inputs) (q : Regs)
    → q.state ≡ HciState.echo_stg_1
    → i.rx_empty ≡ false
    → ((cycle i q).0.wr_en ≡ true) × ((cycle i q).0.tx_data ≡ i.rd_data)
unfolding cycle
echo_clock i q at some_byte = rw at (rw some_byte (refl, refl))

stays_full :
    (l : Line) (q : Regs) (f : Fifo)
    → f.full ≡ true
    → l.tx_done_tick ≡ false
    → (step 3 (tx_wires q l) f).full ≡ true
unfolding step
stays_full l q f full waits = rw waits (rw full refl)

drops_clock :
    (b : Board) (l : Line) (s : System)
    → s.regs.state ≡ HciState.echo_stg_1
    → s.uart.rx_fifo.empty ≡ false
    → s.uart.tx_fifo.full ≡ true
    → l.tx_done_tick ≡ false
    → ((system_clock b l s).regs.wr_en ≡ true)
      × ((system_clock b l s).regs.tx_data ≡ rd_data s.uart.rx_fifo)
      × ((system_clock b l s).uart.tx_fifo.full ≡ true)
unfolding system_clock
drops_clock b l s at some_byte full waits =
    let (sends, byte) = echo_clock (uart_inputs b l s) s.regs at some_byte in
    (sends, byte, stays_full l s.regs s.uart.tx_fifo full waits)

-- An echo does not look at the transmit queue: with a byte in the receive queue, and a transmit queue that
-- is full and sends nothing in this clock, the interface hands over the byte and the queue refuses it.
pub system_clock-echo :
    (b : Board) (l l' : Line) (s : System)
    → s.regs.state ≡ HciState.echo_stg_1
    → s.uart.rx_fifo.empty ≡ false
    → s.uart.tx_fifo.full ≡ true
    → l.tx_done_tick ≡ false
    → ((system_clock b l s).regs.wr_en ≡ true)
      × ((system_clock b l s).regs.tx_data ≡ rd_data s.uart.rx_fifo)
      × (accepted (tx_wires (system_clock b l s).regs l') (system_clock b l s).uart.tx_fifo ≡ [])
system_clock-echo b l l' s at some_byte full waits =
    let (sends, byte, still_full) = drops_clock b l s at some_byte full waits in
    (sends, byte, rw sends (rw still_full refl))
