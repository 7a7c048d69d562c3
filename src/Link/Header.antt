-- ===== src/Link/Header.antt =====
-- The header of a packet: the opcode, the address and the count, each low byte first.
use fpga_nes.Prelude.{ℕ, ◌*◌, ◌/◌, ◌%◌, ◌≡◌, refl, List, ◌∷◌, arith, if◌then◌else◌, ◌==◌}
use fpga_nes.Protocol.{
  u16_field, op_cpu_mem_wr, op_ppu_mem_wr, op_cpu_mem_rd, op_ppu_mem_rd, op_echo,
}
use fpga_nes.Hci.{HciState, concat_low}
use fpga_nes.Link.{Event, Board, clock, run}
use fpga_nes.Link.Clocks.{Scratch, fpga, silent, Port, cpu, ppu, wr_stg_1}
use fpga_nes.Link.Reads.{rd_stg_1}

abbrev pub wr_op : Port → ℕ
wr_op cpu = op_cpu_mem_wr
wr_op ppu = op_ppu_mem_wr

abbrev pub rd_op : Port → ℕ
rd_op cpu = op_cpu_mem_rd
rd_op ppu = op_ppu_mem_rd

-- A 16-bit value put together from its two bytes.
abbrev joined : ℕ → ℕ
joined v = concat_low (v / 256) (v % 256)

joined_lem : (v : ℕ) → joined v ≡ v
joined_lem v = omega arith

module _ (b : Board) (s : Scratch) (err cfg : ℕ) where
  write_header_bytes :
      (port : Port) (addr n : ℕ) (rx : List ℕ) (trace : List Event)
      → run b 5
          (fpga HciState.decode s err cfg (wr_op port ∷ u16_field addr (u16_field n rx)) trace)
        ≡ fpga
            (if joined n * 1 == 0 then HciState.decode else wr_stg_1 port)
            (silent 4 (joined n * 1) (joined addr))
            err
            cfg
            rx
            trace
  unfolding run clock
  write_header_bytes cpu addr n rx trace = refl
  write_header_bytes ppu addr n rx trace = refl

  pub write_header :
      (port : Port) (addr n : ℕ) (rx : List ℕ) (trace : List Event)
      → run b 5
          (fpga HciState.decode s err cfg (wr_op port ∷ u16_field addr (u16_field n rx)) trace)
        ≡ fpga
            (if n == 0 then HciState.decode else wr_stg_1 port)
            (silent 4 n addr)
            err
            cfg
            rx
            trace
  write_header port addr n rx trace =
      let count : joined n * 1 ≡ n = omega arith in
      rw (count, joined_lem addr) at (write_header_bytes port addr n rx trace)

  read_header_bytes :
      (port : Port) (addr n : ℕ) (rx : List ℕ) (trace : List Event)
      → run b 5
          (fpga HciState.decode s err cfg (rd_op port ∷ u16_field addr (u16_field n rx)) trace)
        ≡ fpga
            (if joined n * 2 == 0 then HciState.decode else rd_stg_1 port)
            (silent 4 (joined n * 2) (joined addr))
            err
            cfg
            rx
            trace
  unfolding run clock
  read_header_bytes cpu addr n rx trace = refl
  read_header_bytes ppu addr n rx trace = refl

  pub read_header :
      (port : Port) (addr n : ℕ) (rx : List ℕ) (trace : List Event)
      → run b 5
          (fpga HciState.decode s err cfg (rd_op port ∷ u16_field addr (u16_field n rx)) trace)
        ≡ fpga
            (if 2 * n == 0 then HciState.decode else rd_stg_1 port)
            (silent 4 (2 * n) addr)
            err
            cfg
            rx
            trace
  read_header port addr n rx trace =
      let count : joined n * 2 ≡ 2 * n = omega arith in
      rw (count, joined_lem addr) at (read_header_bytes port addr n rx trace)

  echo_header_bytes :
      (n : ℕ) (rx : List ℕ) (trace : List Event)
      → run b 3 (fpga HciState.decode s err cfg (op_echo ∷ u16_field n rx) trace)
        ≡ fpga
            (if joined n == 0 then HciState.decode else HciState.echo_stg_1)
            (silent 2 (joined n) s.addr)
            err
            cfg
            rx
            trace
  unfolding run clock
  echo_header_bytes n rx trace = refl

  pub echo_header :
      (n : ℕ) (rx : List ℕ) (trace : List Event)
      → run b 3 (fpga HciState.decode s err cfg (op_echo ∷ u16_field n rx) trace)
        ≡ fpga
            (if n == 0 then HciState.decode else HciState.echo_stg_1)
            (silent 2 n s.addr)
            err
            cfg
            rx
            trace
  echo_header n rx trace = rw (joined_lem n) at (echo_header_bytes n rx trace)
