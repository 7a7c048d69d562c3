-- ===== src/Hci.antt =====
-- The host communication interface, hw/src/hci/hci.v: the state machine on the FPGA that decodes the
-- debug packets. `cycle` is one clock of its `always` blocks: from the registers and the input wires
-- to the next registers and the output wires of that clock. Registers hold numbers below 2 to
-- their width; a wider value is cut where the Verilog assignment cuts it.
mod Datapath
pub mod Ranges
pub use Datapath.*
use fpga_nes.Prelude.{ℕ, ◌*◌, ◌+◌, ◌%◌, true, false, ◌||◌, ◌==◌, if◌then◌else◌}
use fpga_nes.Protocol.{op_dbg_hlt, op_query_hlt}

-- The `case (q_state)`. `d` and `o` hold the defaults; the error code that is reported is that of
-- the register, `q_err`.
dispatch : HciState → Inputs → ℕ → Regs → Outputs → Regs × Outputs
dispatch HciState.disabled i q_err d o =
    if i.brk
    then (record d { state = HciState.decode }, o)
    else if i.rx_empty
    then (d, o)
    else if i.rd_data == op_dbg_hlt
    then (record d { state = HciState.decode }, pop o)
    else if i.rd_data == op_query_hlt
    then (record d { tx_data = 0x00; wr_en = true }, pop o)
    else (d, pop o)
dispatch HciState.decode i q_err d o =
    if i.rx_empty then (d, o) else (decode_opcode i.rd_data (record d { decode_cnt = 0 }), pop o)
dispatch HciState.echo_stg_0 i q_err d o =
    if i.rx_empty
    then (d, o)
    else if d.decode_cnt == 0
    then (record d { decode_cnt = next_decode d.decode_cnt; execute_cnt = i.rd_data }, pop o)
    else (let n = concat_low i.rd_data d.execute_cnt in
        (
          record d {
            decode_cnt = next_decode d.decode_cnt;
            execute_cnt = n;
            state = if n == 0 then HciState.decode else HciState.echo_stg_1;
          },
          pop o,
        ))
dispatch HciState.echo_stg_1 i q_err d o =
    if i.rx_empty
    then (d, o)
    else (let n = count_down d.execute_cnt in
        (
          record d {
            execute_cnt = n;
            tx_data = i.rd_data;
            wr_en = true;
            state = if n == 0 then HciState.decode else d.state;
          },
          pop o,
        ))
dispatch HciState.cpu_mem_rd_stg_0 i q_err d o =
    if i.rx_empty then (d, o) else (read_header 2 HciState.cpu_mem_rd_stg_1 i.rd_data d, pop o)
dispatch HciState.cpu_mem_rd_stg_1 i q_err d o = (read_memory i.tx_full i.cpu_din d, o)
dispatch HciState.cpu_mem_wr_stg_0 i q_err d o =
    if i.rx_empty then (d, o) else (read_header 1 HciState.cpu_mem_wr_stg_1 i.rd_data d, pop o)
dispatch HciState.cpu_mem_wr_stg_1 i q_err d o =
    if i.rx_empty then (d, o) else (write_memory d, record (pop o) { cpu_r_nw = false })
dispatch HciState.cpu_reg_rd i q_err d o = if i.rx_empty || i.tx_full then (d, o) else (
  record d { tx_data = i.cpu_dbgreg_in (i.rd_data % 16); wr_en = true; state = HciState.decode },
  record (pop o) { cpu_dbgreg_sel = i.rd_data % 16 },
)
dispatch HciState.cpu_reg_wr_stg_0 i q_err d o =
    if i.rx_empty
    then (d, o)
    else (record d { addr = i.rd_data; state = HciState.cpu_reg_wr_stg_1 }, pop o)
dispatch HciState.cpu_reg_wr_stg_1 i q_err d o = if i.rx_empty then (d, o) else (
  record d { state = HciState.decode },
  record (pop o) { cpu_dbgreg_sel = d.addr % 16; cpu_dbgreg_wr = true; cpu_dbgreg_out = i.rd_data },
)
dispatch HciState.query_err_code i q_err d o =
    if i.tx_full
    then (d, o)
    else (record d { tx_data = q_err; wr_en = true; state = HciState.decode }, o)
dispatch HciState.ppu_mem_rd_stg_0 i q_err d o =
    if i.rx_empty then (d, o) else (read_header 2 HciState.ppu_mem_rd_stg_1 i.rd_data d, pop o)
dispatch HciState.ppu_mem_rd_stg_1 i q_err d o = (read_memory i.tx_full i.ppu_vram_din d, o)
dispatch HciState.ppu_mem_wr_stg_0 i q_err d o =
    if i.rx_empty then (d, o) else (read_header 1 HciState.ppu_mem_wr_stg_1 i.rd_data d, pop o)
dispatch HciState.ppu_mem_wr_stg_1 i q_err d o =
    if i.rx_empty then (d, o) else (write_memory d, record (pop o) { ppu_vram_wr = true })
dispatch HciState.ppu_disable i q_err d o = disable_ppu d o
dispatch HciState.cart_set_cfg_stg_0 i q_err d o =
    (record d { execute_cnt = 0x0004; state = HciState.cart_set_cfg_stg_1 }, o)
dispatch HciState.cart_set_cfg_stg_1 i q_err d o =
    if i.rx_empty
    then (d, o)
    else (let last = d.execute_cnt == 0 in
        (
          record d {
            execute_cnt = count_down d.execute_cnt;
            cart_cfg = d.cart_cfg % 0x100000000 * 256 + i.rd_data;
            cart_cfg_upd = last;
            state = if last then HciState.decode else d.state;
          },
          pop o,
        ))

-- One clock: the next registers, and the outputs during the clock.
unfoldable pub cycle : Inputs → Regs → Regs × Outputs
unfolding dispatch
cycle i q = dispatch q.state i q.err_code (default_regs i q) (default_outputs i)
