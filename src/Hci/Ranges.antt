-- ===== src/Hci/Ranges.antt =====
-- The registers of hw/src/hci/hci.v stay in the ranges of their widths, and the counters in the ranges
-- that each state expects.
use fpga_nes.Prelude.{ℕ, zero, suc, ◌%◌, ◌^◌, ◌≤◌, ◌<◌, Bool, arith, bit_or}
use fpga_nes.Hci.{HciState, Regs, Inputs, reset, cycle}

-- The bounds of the two counters, by state.
abbrev pub CountsFit : HciState → ℕ → ℕ → Type 0
CountsFit HciState.echo_stg_0 dc ec = dc ≤ 1
CountsFit HciState.echo_stg_1 dc ec = (0 < ec) × (ec < 2 ^ 16)
CountsFit HciState.cpu_mem_rd_stg_0 dc ec = dc ≤ 3
CountsFit HciState.cpu_mem_rd_stg_1 dc ec = 0 < ec
CountsFit HciState.cpu_mem_wr_stg_0 dc ec = dc ≤ 3
CountsFit HciState.cpu_mem_wr_stg_1 dc ec = (0 < ec) × (ec < 2 ^ 16)
CountsFit HciState.ppu_mem_rd_stg_0 dc ec = dc ≤ 3
CountsFit HciState.ppu_mem_rd_stg_1 dc ec = 0 < ec
CountsFit HciState.ppu_mem_wr_stg_0 dc ec = dc ≤ 3
CountsFit HciState.ppu_mem_wr_stg_1 dc ec = (0 < ec) × (ec < 2 ^ 16)
CountsFit HciState.ppu_disable dc ec = dc ≤ 5
CountsFit HciState.cart_set_cfg_stg_1 dc ec = ec ≤ 4
CountsFit _ dc ec = Unit {0}

pub record IsInRange (q : Regs) : Type 0 where
  pub decode_fits : q.decode_cnt < 2 ^ 3
  pub execute_fits : q.execute_cnt < 2 ^ 17
  pub addr_fits : q.addr < 2 ^ 16
  pub err_fits : q.err_code < 2 ^ 2
  pub cart_fits : q.cart_cfg < 2 ^ 40
  pub tx_fits : q.tx_data < 2 ^ 8
  pub counts_fit : CountsFit q.state q.decode_cnt q.execute_cnt

-- The input wires that carry a byte.
pub record AreBytes (i : Inputs) : Type 0 where
  pub rd_byte : i.rd_data < 2 ^ 8
  pub cpu_byte : i.cpu_din < 2 ^ 8
  pub reg_byte : (r : ℕ) → i.cpu_dbgreg_in r < 2 ^ 8
  pub ppu_byte : i.ppu_vram_din < 2 ^ 8

err_bits : (x : ℕ) → x < 4 → (bit_or x 1 < 4) × (bit_or x 2 < 4)
err_bits zero h = omega arith
err_bits (suc zero) h = omega arith
err_bits (suc (suc zero)) h = omega arith
err_bits (suc (suc (suc zero))) h = omega arith
err_bits (suc (suc (suc (suc x)))) h = absurd (omega arith)

fields-IsInRange :
    (i : Inputs) (st : HciState) (dc ec addr err cfg tx : ℕ) (upd wr : Bool)
    → AreBytes i
    → IsInRange (record {
      state = st;
      decode_cnt = dc;
      execute_cnt = ec;
      addr = addr;
      err_code = err;
      cart_cfg = cfg;
      cart_cfg_upd = upd;
      tx_data = tx;
      wr_en = wr;
    })
    → IsInRange
        (cycle i (record {
          state = st;
          decode_cnt = dc;
          execute_cnt = ec;
          addr = addr;
          err_code = err;
          cart_cfg = cfg;
          cart_cfg_upd = upd;
          tx_data = tx;
          wr_en = wr;
        })).0
unfolding cycle
fields-IsInRange i HciState.echo_stg_1 dc ec addr err cfg tx upd wr bytes q =
    ground (arith, err_bits err, err_bits (bit_or err 1))
fields-IsInRange i HciState.cpu_mem_rd_stg_0 dc ec addr err cfg tx upd wr bytes q =
    ground (arith, err_bits err, err_bits (bit_or err 1))
fields-IsInRange i HciState.decode dc ec addr err cfg tx upd wr bytes q =
    ground (arith, err_bits err, err_bits (bit_or err 1))
fields-IsInRange i HciState.cpu_reg_rd dc ec addr err cfg tx upd wr bytes q =
    ground (arith, err_bits err, err_bits (bit_or err 1), bytes.reg_byte (i.rd_data % 16))
fields-IsInRange i st dc ec addr err cfg tx upd wr bytes q =
    ground (arith, err_bits err, err_bits (bit_or err 1))

-- One clock, with bytes on the byte wires, keeps every register in its range.
pub cycle-IsInRange : (i : Inputs) (q : Regs) → AreBytes i → IsInRange q → IsInRange (cycle i q).0
cycle-IsInRange i q bytes h =
    fields-IsInRange i q.state q.decode_cnt q.execute_cnt q.addr q.err_code q.cart_cfg q.tx_data
      q.cart_cfg_upd q.wr_en bytes h

reset-IsInRange : IsInRange reset
reset-IsInRange = ground arith

-- The registers that the machine can have: those of the reset, and those one clock later, whatever
-- the wires carry.
pub data Reaches : Regs → Type 0 where
  at_reset : Reaches reset
  next : (i : Inputs) (q : Regs) → AreBytes i → Reaches q → Reaches (cycle i q).0

-- From the reset on, with any bytes on the byte wires and any levels on the others, at any clock: each
-- register is below two to the power of its width, and the two counters are within the bounds of the state.
pub Reaches-IsInRange : (q : Regs) → Reaches q → IsInRange q
Reaches-IsInRange q at_reset = reset-IsInRange
Reaches-IsInRange q (next i q' bytes before) =
    cycle-IsInRange i q' bytes (Reaches-IsInRange q' before)
