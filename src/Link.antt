-- ===== src/Link.antt =====
-- The FPGA side of the serial link: the host communication interface (hw/src/hci/hci.v) between the
-- UART's receive queue and the rest of the board. A trace records what the interface does to the
-- board and what it sends back. `Board` stands for the CPU, the PPU and the memories: what their
-- data buses return may depend on all that happened before, and no law is asked of it.
pub mod Clocks
pub mod Reads
pub mod Echo
pub mod Header
pub mod Effects
pub mod Deliver
pub mod Session
pub mod Running
pub mod Laws
pub mod Replies
pub mod Answers
pub mod Schedule
pub mod Stalls
use fpga_nes.Prelude.{
  ℕ, zero, suc, ◌+◌, ◌≡◌, refl, Bool, true, false, not, List, [], ◌∷◌, ◌++◌, if◌then◌else◌,
}
use fpga_nes.Hci.{Regs, Inputs, Outputs, cycle}

-- What happens on the wires that leave the interface.
pub data Event : Type 0 where
  cpu_write : ℕ → ℕ → Event
  ppu_write : ℕ → ℕ → Event
  reg_write : ℕ → ℕ → Event
  cart_update : ℕ → Event
  reply : ℕ → Event

pub record Board : Type 0 where
  pub cpu_din : List Event → ℕ → ℕ
  pub dbgreg : List Event → ℕ → ℕ
  pub ppu_din : List Event → ℕ → ℕ
  pub idle_data : ℕ

-- The wires of one clock that the environment chooses. `rx_ready` is false while the next byte has not
-- arrived.
pub record Wires : Type 0 where
  pub rx_ready : Bool
  pub tx_full : Bool
  pub parity_err : Bool
  pub brk : Bool

pub record Fpga : Type 0 where
  pub regs : Regs
  pub rx : List ℕ
  pub trace : List Event

abbrev pub is_empty : List ℕ → Bool
is_empty [] = true
is_empty (b ∷ rx) = false

abbrev pub front : ℕ → List ℕ → ℕ
front idle [] = idle
front idle (b ∷ rx) = b

abbrev pub behind : List ℕ → List ℕ
behind [] = []
behind (b ∷ rx) = rx

abbrev pub emit : Bool → Event → List Event → List Event
emit true e trace = trace ++ e ∷ []
emit false e trace = trace

-- The writes are seen in the clock that makes them; a byte for the UART and the pulse for the
-- cartridge are seen in the registers that it leaves.
abbrev pub observe : Inputs → Regs → Outputs → Regs → List Event → List Event
observe i q o d trace = emit d.wr_en (reply d.tx_data) (
    emit d.cart_cfg_upd (cart_update d.cart_cfg) (
      emit o.cpu_dbgreg_wr (reg_write o.cpu_dbgreg_sel o.cpu_dbgreg_out) (
        emit o.ppu_vram_wr (ppu_write q.addr i.rd_data)
          (emit (not o.cpu_r_nw) (cpu_write q.addr o.cpu_dout) trace))))

-- The next byte of the queue is there, the UART has room, and nothing else happens.
abbrev pub quiet : Wires
quiet = record { rx_ready = true; tx_full = false; parity_err = false; brk = false }

module _ (b : Board) where
  abbrev pub inputs : Wires → Fpga → Inputs
  inputs w f = record {
    rx_empty = if w.rx_ready then is_empty f.rx else true;
    rd_data = if w.rx_ready then front b.idle_data f.rx else b.idle_data;
    tx_full = w.tx_full;
    parity_err = w.parity_err;
    brk = w.brk;
    cpu_din = b.cpu_din f.trace f.regs.addr;
    cpu_dbgreg_in = b.dbgreg f.trace;
    ppu_vram_din = b.ppu_din f.trace f.regs.addr;
  }

  unfoldable pub clock : Wires → Fpga → Fpga
  unfolding cycle
  clock w f =
      let i = inputs w f in
      let r = cycle i f.regs in
      record {
        regs = r.0;
        rx = if r.1.rd_en then behind f.rx else f.rx;
        trace = observe i f.regs r.1 r.0 f.trace;
      }

  -- A number of clocks on quiet wires.
  unfoldable pub run : ℕ → Fpga → Fpga
  run zero f = f
  run (suc n) f = run n (clock quiet f)
