-- ===== src/Link/Reads.antt =====
-- Memory reads: the interface of hw/src/hci/hci.v sends one byte every second clock.
use fpga_nes.Prelude.{
  ℕ, zero, suc, ◌+◌, ◌*◌, ◌%◌, ◌≡◌, ap, ◌∙◌, true, false, List, [], ◌∷◌, ◌++◌, append_assoc, arith,
  if◌then◌else◌, ◌==◌,
}
use fpga_nes.Memory.{IsU16}
use fpga_nes.Hci.{HciState, next_addr, count_down}
use fpga_nes.Link.{Event, Board, Fpga, reply, quiet, clock, run}
use fpga_nes.Link.Clocks.{Scratch, fpga, silent, Port, cpu, ppu}

abbrev pub rd_stg_1 : Port → HciState
rd_stg_1 cpu = HciState.cpu_mem_rd_stg_1
rd_stg_1 ppu = HciState.ppu_mem_rd_stg_1

abbrev pub din : Board → Port → List Event → ℕ → ℕ
din b cpu = b.cpu_din
din b ppu = b.ppu_din

-- The replies to a read of `n` bytes. A byte is read after those before it were sent.
abbrev pub reads : (List Event → ℕ → ℕ) → List Event → ℕ → ℕ → List Event
reads data_in trace a zero = []
reads data_in trace a (suc n) =
    let e = reply (data_in trace a) in e ∷ reads data_in (trace ++ e ∷ []) (next_addr a) n

abbrev pub double : ℕ → ℕ
double zero = zero
double (suc n) = suc (suc (double n))

-- Registers while a byte goes to the UART.
abbrev pub sent : ℕ → ℕ → ℕ → ℕ → Scratch
sent dc ec ad v = record {
  decode_cnt = dc;
  execute_cnt = ec;
  addr = ad;
  cart_cfg_upd = false;
  tx_data = v;
  wr_en = true;
}

module _ (b : Board) where
  -- After `n` clocks the interface waits for the next packet, with this queue and this trace.
  abbrev pub Ends : ℕ → Fpga → ℕ → ℕ → List ℕ → List Event → Type 0
  Ends n f err cfg rest trace =
      (s : Scratch) × (run b n f ≡ fpga HciState.decode s err cfg rest trace)

module _ (b : Board) (err cfg : ℕ) where
  pub read_wait :
      (port : Port) (s : Scratch) (rx : List ℕ) (trace : List Event)
      → (s.execute_cnt % 2 == 0) ≡ true
      → clock b quiet (fpga (rd_stg_1 port) s err cfg rx trace)
        ≡ fpga
            (rd_stg_1 port)
            (silent s.decode_cnt (count_down s.execute_cnt) s.addr)
            err
            cfg
            rx
            trace
  unfolding clock
  read_wait cpu s rx trace e = rw (e, clock)
  read_wait ppu s rx trace e = rw (e, clock)

  pub read_send :
      (port : Port) (s : Scratch) (rx : List ℕ) (trace : List Event)
      → (s.execute_cnt % 2 == 0) ≡ false
      → clock b quiet (fpga (rd_stg_1 port) s err cfg rx trace)
        ≡ fpga
            (if count_down s.execute_cnt == 0 then HciState.decode else rd_stg_1 port)
            (sent s.decode_cnt
              (count_down s.execute_cnt)
              (next_addr s.addr)
              (din b port trace s.addr))
            err
            cfg
            rx
            (trace ++ reply (din b port trace s.addr) ∷ [])
  unfolding clock
  read_send cpu s rx trace e = rw (e, clock)
  read_send ppu s rx trace e = rw (e, clock)

  -- A wait and a send: one byte of memory goes to the UART.
  read_byte :
      (port : Port) (s : Scratch) (n : ℕ) (rx : List ℕ) (trace : List Event)
      → s.execute_cnt ≡ 2 * n + 2
      → IsU16 n
      → run b 2 (fpga (rd_stg_1 port) s err cfg rx trace)
        ≡ fpga
            (if 2 * n == 0 then HciState.decode else rd_stg_1 port)
            (sent s.decode_cnt (2 * n) (next_addr s.addr) (din b port trace s.addr))
            err
            cfg
            rx
            (trace ++ reply (din b port trace s.addr) ∷ [])
  unfolding run
  read_byte port s n rx trace e h =
      let s' = silent s.decode_cnt (count_down s.execute_cnt) s.addr in
      let even : (s.execute_cnt % 2 == 0) ≡ true = ground arith in
      let odd : (s'.execute_cnt % 2 == 0) ≡ false = ground arith in
      let z : count_down s'.execute_cnt ≡ 2 * n = omega arith in
      ap (clock b quiet) (read_wait port s rx trace even)
      ∙ (rw z at (read_send port s' rx trace odd))

  pub read_loop :
      (port : Port) (s : Scratch) (n : ℕ) (rest : List ℕ) (trace : List Event)
      → s.execute_cnt ≡ 2 * n + 2
      → IsU16 (suc n)
      → Ends b
          (double (suc n))
          (fpga (rd_stg_1 port) s err cfg rest trace)
          err
          cfg
          rest
          (trace ++ reads (din b port) trace s.addr (suc n))
  unfolding run
  read_loop port s zero rest trace e h = (
    sent s.decode_cnt 0 (next_addr s.addr) (din b port trace s.addr),
    read_byte port s 0 rest trace e (omega arith),
  )
  read_loop port s (suc n) rest trace e h =
      let v = din b port trace s.addr in
      let trace' = trace ++ reply v ∷ [] in
      let s' = sent s.decode_cnt (2 * suc n) (next_addr s.addr) v in
      let nz : (2 * suc n == 0) ≡ false = ground arith in
      let first = rw nz at (read_byte port s (suc n) rest trace e (omega arith)) in
      let (s'', more) = read_loop port s' n rest trace' (omega arith) (omega arith) in
      (
        s'',
        ap (run b (double (suc n))) first
            ∙ more
            ∙ ap (fpga HciState.decode s'' err cfg rest) (append_assoc trace _ _),
      )
