-- ===== src/Uart/Stalls.antt =====
-- The interface of hw/src/hci/hci.v in a clock in which the receive queue says that it is empty: what
-- stands on the data wires does not matter.
use fpga_nes.Prelude.{ℕ, ◌≡◌, refl, arith, Bool, true, false, List}
use fpga_nes.Hci.{HciState, Regs, Inputs, cycle}
use fpga_nes.Link.{Event, observe}

-- The wires of a clock without a byte.
abbrev pub blank : ℕ → Bool → Bool → Bool → ℕ → (ℕ → ℕ) → ℕ → Inputs
blank rd tx_full parity_err brk cpu_din dbgreg ppu_din = record {
  rx_empty = true;
  rd_data = rd;
  tx_full = tx_full;
  parity_err = parity_err;
  brk = brk;
  cpu_din = cpu_din;
  cpu_dbgreg_in = dbgreg;
  ppu_vram_din = ppu_din;
}

-- The registers, the request for a byte, and what is seen are the same.
abbrev pub AreAlike : Inputs → Inputs → Regs → List Event → Type 0
AreAlike i j q trace =
    ((cycle i q).0 ≡ (cycle j q).0)
    × ((cycle i q).1.rd_en ≡ false)
    × ((cycle j q).1.rd_en ≡ false)
    × (observe i q (cycle i q).1 (cycle i q).0 trace
        ≡ observe j q (cycle j q).1 (cycle j q).0 trace)

abbrev regs_of : HciState → ℕ → ℕ → ℕ → ℕ → ℕ → Bool → ℕ → Bool → Regs
regs_of st dc ec addr err cfg upd tx wr = record {
  state = st;
  decode_cnt = dc;
  execute_cnt = ec;
  addr = addr;
  err_code = err;
  cart_cfg = cfg;
  cart_cfg_upd = upd;
  tx_data = tx;
  wr_en = wr;
}

blank_states :
    (st : HciState) (dc ec addr err cfg : ℕ) (upd : Bool) (tx : ℕ) (wr : Bool) (rd rd' : ℕ)
    (tx_full parity_err brk : Bool) (cpu_din : ℕ) (dbgreg : ℕ → ℕ) (ppu_din : ℕ)
    (trace : List Event)
    → AreAlike
        (blank rd tx_full parity_err brk cpu_din dbgreg ppu_din)
        (blank rd' tx_full parity_err brk cpu_din dbgreg ppu_din)
        (regs_of st dc ec addr err cfg upd tx wr)
        trace
unfolding cycle
blank_states HciState.disabled dc ec addr err cfg upd tx wr rd rd' full parity true din dbg vram
      trace =
    (refl, refl, refl, refl)
blank_states HciState.disabled dc ec addr err cfg upd tx wr rd rd' full parity false din dbg vram
      trace =
    (refl, refl, refl, refl)
blank_states HciState.cpu_mem_rd_stg_1 dc ec addr err cfg upd tx wr rd rd' full parity brk din dbg
      vram trace =
    (refl, refl, refl, refl)
blank_states HciState.ppu_mem_rd_stg_1 dc ec addr err cfg upd tx wr rd rd' full parity brk din dbg
      vram trace =
    (refl, refl, refl, refl)
blank_states HciState.query_err_code dc ec addr err cfg upd tx wr rd rd' true parity brk din dbg
      vram trace =
    (refl, refl, refl, refl)
blank_states HciState.query_err_code dc ec addr err cfg upd tx wr rd rd' false parity brk din dbg
      vram trace =
    (refl, refl, refl, refl)
blank_states HciState.ppu_disable dc ec addr err cfg upd tx wr rd rd' full parity brk din dbg vram
      trace =
    (ground arith, ground arith, ground arith, ground arith)
blank_states _ dc ec addr err cfg upd tx wr rd rd' full parity brk din dbg vram trace =
    (refl, refl, refl, refl)

pub cycle-blank :
    (q : Regs) (rd rd' : ℕ) (tx_full parity_err brk : Bool) (cpu_din : ℕ) (dbgreg : ℕ → ℕ)
    (ppu_din : ℕ) (trace : List Event)
    → AreAlike
        (blank rd tx_full parity_err brk cpu_din dbgreg ppu_din)
        (blank rd' tx_full parity_err brk cpu_din dbgreg ppu_din)
        q
        trace
cycle-blank q rd rd' full parity brk din dbg vram trace =
    blank_states q.state q.decode_cnt q.execute_cnt q.addr q.err_code q.cart_cfg q.cart_cfg_upd
      q.tx_data q.wr_en rd rd' full parity brk din dbg vram trace
