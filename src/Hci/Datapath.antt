-- ===== src/Hci/Datapath.antt =====
-- The registers and wires of hw/src/hci/hci.v, and the data paths that its states share.
use fpga_nes.Prelude.{ℕ, ◌+◌, ◌*◌, ◌%◌, Bool, true, false, bit_or, ◌==◌, if◌then◌else◌}
use fpga_nes.Protocol.{
  op_echo, op_cpu_mem_rd, op_cpu_mem_wr, op_dbg_hlt, op_dbg_run, op_cpu_reg_rd, op_cpu_reg_wr,
  op_query_hlt, op_query_err_code, op_ppu_mem_rd, op_ppu_mem_wr, op_ppu_disable, op_cart_set_cfg,
}

pub data HciState : Type 0 where
  disabled decode echo_stg_0 echo_stg_1 : HciState
  cpu_mem_rd_stg_0 cpu_mem_rd_stg_1 cpu_mem_wr_stg_0 cpu_mem_wr_stg_1 : HciState
  cpu_reg_rd cpu_reg_wr_stg_0 cpu_reg_wr_stg_1 query_err_code : HciState
  ppu_mem_rd_stg_0 ppu_mem_rd_stg_1 ppu_mem_wr_stg_0 ppu_mem_wr_stg_1 ppu_disable : HciState
  cart_set_cfg_stg_0 cart_set_cfg_stg_1 : HciState

-- The registers `q_*`.
pub record Regs : Type 0 where
  pub state : HciState
  pub decode_cnt : ℕ
  pub execute_cnt : ℕ
  pub addr : ℕ
  pub err_code : ℕ
  pub cart_cfg : ℕ
  pub cart_cfg_upd : Bool
  pub tx_data : ℕ
  pub wr_en : Bool

-- The input wires of one clock, those from the UART block included.
pub record Inputs : Type 0 where
  pub rx_empty : Bool
  pub rd_data : ℕ
  pub tx_full : Bool
  pub parity_err : Bool
  pub brk : Bool
  pub cpu_din : ℕ
  pub cpu_dbgreg_in : ℕ → ℕ
  pub ppu_vram_din : ℕ

-- The combinational outputs of one clock.
pub record Outputs : Type 0 where
  pub rd_en : Bool
  pub cpu_r_nw : Bool
  pub cpu_dout : ℕ
  pub cpu_dbgreg_sel : ℕ
  pub cpu_dbgreg_out : ℕ
  pub cpu_dbgreg_wr : Bool
  pub ppu_vram_wr : Bool

-- `always @(posedge clk) if (rst)`
abbrev pub reset : Regs
reset = record {
  state = HciState.decode;
  decode_cnt = 0;
  execute_cnt = 0;
  addr = 0;
  err_code = 0;
  cart_cfg = 0;
  cart_cfg_upd = false;
  tx_data = 0;
  wr_en = false;
}

-- Decrement of the 17-bit execute count, and increment of the 3-bit decode count and of the address.
abbrev pub count_down : ℕ → ℕ
count_down n = (n + 0x1FFFF) % 0x20000

abbrev pub next_decode : ℕ → ℕ
next_decode n = (n + 1) % 8

abbrev pub next_addr : ℕ → ℕ
next_addr a = (a + 1) % 0x10000

-- `{ hi, q[7:0] }`
abbrev pub concat_low : ℕ → ℕ → ℕ
concat_low hi q = hi * 256 + q % 256

-- The defaults at the head of the combinational block.
abbrev pub default_regs : Inputs → Regs → Regs
default_regs i q = record q {
  err_code = if i.parity_err then bit_or q.err_code 1 else q.err_code;
  cart_cfg_upd = false;
  tx_data = 0;
  wr_en = false;
}

abbrev pub default_outputs : Inputs → Outputs
default_outputs i = record {
  rd_en = false;
  cpu_r_nw = true;
  cpu_dout = i.rd_data;
  cpu_dbgreg_sel = 0;
  cpu_dbgreg_out = 0;
  cpu_dbgreg_wr = false;
  ppu_vram_wr = false;
}

abbrev pub pop : Outputs → Outputs
pop o = record o { rd_en = true }

-- The opcode case of S_DECODE.
abbrev pub decode_opcode : ℕ → Regs → Regs
decode_opcode op d =
    if op == op_echo
    then record d { state = HciState.echo_stg_0 }
    else if op == op_cpu_mem_rd
    then record d { state = HciState.cpu_mem_rd_stg_0 }
    else if op == op_cpu_mem_wr
    then record d { state = HciState.cpu_mem_wr_stg_0 }
    else if op == op_dbg_hlt
    then record d { state = HciState.decode }
    else if op == op_cpu_reg_rd
    then record d { state = HciState.cpu_reg_rd }
    else if op == op_cpu_reg_wr
    then record d { state = HciState.cpu_reg_wr_stg_0 }
    else if op == op_query_err_code
    then record d { state = HciState.query_err_code }
    else if op == op_ppu_mem_rd
    then record d { state = HciState.ppu_mem_rd_stg_0 }
    else if op == op_ppu_mem_wr
    then record d { state = HciState.ppu_mem_wr_stg_0 }
    else if op == op_ppu_disable
    then record d { state = HciState.ppu_disable }
    else if op == op_cart_set_cfg
    then record d { state = HciState.cart_set_cfg_stg_0 }
    else if op == op_dbg_run
    then record d { state = HciState.disabled }
    else if op == op_query_hlt
    then record d { tx_data = 0x01; wr_en = true }
    else record d { err_code = bit_or d.err_code 2; state = HciState.decode }

-- The stages that read ADDR and CNT; `double` is the width of the shift of the count, and `stage` the
-- state that serves the packet.
abbrev pub read_header : ℕ → HciState → ℕ → Regs → Regs
read_header double stage b d =
    let c = d.decode_cnt in
    let d' = record d { decode_cnt = next_decode c } in
    if c == 0
    then record d' { addr = b }
    else if c == 1
    then record d' { addr = concat_low b d.addr }
    else if c == 2
    then record d' { execute_cnt = b }
    else (let n = concat_low b d.execute_cnt * double in
        record d' { execute_cnt = n; state = if n == 0 then HciState.decode else stage })

-- One byte from memory goes to the UART every second clock.
abbrev pub read_memory : Bool → ℕ → Regs → Regs
read_memory tx_full din d =
    if d.execute_cnt % 2 == 0
    then record d { execute_cnt = count_down d.execute_cnt }
    else if tx_full
    then d
    else (let n = count_down d.execute_cnt in
        record d {
          execute_cnt = n;
          tx_data = din;
          wr_en = true;
          addr = next_addr d.addr;
          state = if n == 0 then HciState.decode else d.state;
        })

abbrev pub write_memory : Regs → Regs
write_memory d =
    let n = count_down d.execute_cnt in
    record d {
      execute_cnt = n;
      addr = next_addr d.addr;
      state = if n == 0 then HciState.decode else d.state;
    }

abbrev pub write_zero : Outputs → Outputs
write_zero o = record o { cpu_r_nw = false; cpu_dout = 0x00 }

abbrev pub disable_ppu : Regs → Outputs → Regs × Outputs
disable_ppu q o =
    let c = q.decode_cnt in
    let d = record q { decode_cnt = next_decode c } in
    if c == 0
    then (record d { addr = 0x2000 }, o)
    else if c == 1
    then (record d { addr = 0x0000 }, write_zero o)
    else if c == 2
    then (record d { addr = 0x2001 }, o)
    else if c == 3
    then (record d { addr = 0x0000 }, write_zero o)
    else if c == 4
    then (record d { addr = 0x2002 }, o)
    else if c == 5
    then (record d { addr = 0x0000; state = HciState.decode }, o)
    else (d, o)
