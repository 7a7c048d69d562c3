-- ===== src/Link/Deliver.antt =====
-- One packet, delivered: what the interface of hw/src/hci/hci.v does with the bytes of a command.
use fpga_nes.Prelude.{
  ℕ, zero, suc, ◌+◌, ◌*◌, ◌%◌, ◌≡◌, refl, sym, ap, ◌∙◌, true, false, List, [], ◌∷◌, ◌++◌,
  append-nil, append_assoc, arith, length, ◌==◌,
}
use fpga_nes.Memory.{IsU16}
use fpga_nes.Protocol.{Command, IsWellFormed, encode, u16_field, op_echo}
use fpga_nes.Hci.{HciState}
use fpga_nes.Link.{Event, cpu_write, cart_update, Board, clock, run}
use fpga_nes.Link.Clocks.{
  Scratch, fpga, silent, writes, skip, Port, cpu, ppu, wr_event, run_trans, write_loop,
}
use fpga_nes.Link.Reads.{din, reads, double, sent, Ends, read_loop}
use fpga_nes.Link.Echo.{replies, echo_loop}
use fpga_nes.Link.Header.{wr_op, rd_op, write_header, read_header, echo_header}
use fpga_nes.Link.Effects.{cart_cfg_of, effects, cfg_after, state_after, clocks}

-- A byte shifted into the 40-bit configuration register, five times.
abbrev shift_in : ℕ → ℕ → ℕ
shift_in cfg v = cfg % 0x100000000 * 256 + v

abbrev shift_in_5 : ℕ → ℕ → ℕ → ℕ → ℕ → ℕ → ℕ
shift_in_5 cfg v w x y z = shift_in (shift_in (shift_in (shift_in (shift_in cfg v) w) x) y) z

shift_in_5_lem :
    (cfg v w x y z : ℕ)
    → IsWellFormed (Command.cart_set_cfg v w x y z)
    → shift_in_5 cfg v w x y z ≡ cart_cfg_of v w x y z
shift_in_5_lem cfg v w x y z h = omega arith

module _ (b : Board) (s : Scratch) (err cfg : ℕ) where
  deliver_write :
      (port : Port) (addr : ℕ) (payload rest : List ℕ) (trace : List Event)
      → IsU16 (length payload)
      → Ends b
          (5 + length payload)
          (fpga HciState.decode s err cfg
            (wr_op port ∷ u16_field addr (u16_field (length payload) (payload ++ rest)))
            trace)
          err
          cfg
          rest
          (trace ++ writes (wr_event port) addr payload)
  deliver_write port addr [] rest trace h = (
    silent 4 0 addr,
    run_trans b 5 0 _ (write_header b s err cfg port addr 0 rest trace) (
        unfold run in
        ap (fpga HciState.decode (silent 4 0 addr) err cfg rest) (sym (append-nil trace))),
  )
  deliver_write port addr (p ∷ payload) rest trace h =
      let n = length payload in
      let nz : (suc n == 0) ≡ false = ground arith in
      (
        silent 4 0 (skip addr (p ∷ payload)),
        run_trans b 5 (suc n) _
            (rw nz at (write_header b s err cfg port addr (suc n) (p ∷ (payload ++ rest)) trace))
            (write_loop b err cfg port (silent 4 (suc n) addr) p payload rest trace refl h),
      )

  deliver_read :
      (port : Port) (addr n : ℕ) (rest : List ℕ) (trace : List Event)
      → IsU16 n
      → Ends b
          (5 + double n)
          (fpga HciState.decode s err cfg (rd_op port ∷ u16_field addr (u16_field n rest)) trace)
          err
          cfg
          rest
          (trace ++ reads (din b port) trace addr n)
  deliver_read port addr zero rest trace h = (
    silent 4 0 addr,
    run_trans b 5 0 _ (read_header b s err cfg port addr 0 rest trace) (
        unfold run in
        ap (fpga HciState.decode (silent 4 0 addr) err cfg rest) (sym (append-nil trace))),
  )
  deliver_read port addr (suc n) rest trace h =
      let nz : (2 * suc n == 0) ≡ false = ground arith in
      let (s', loop) =
        read_loop b err cfg port (silent 4 (2 * suc n) addr) n rest trace (omega arith) h in
      (
        s',
        run_trans b 5 (double (suc n)) _
            (rw nz at (read_header b s err cfg port addr (suc n) rest trace)) loop,
      )

  deliver_echo :
      (payload rest : List ℕ) (trace : List Event)
      → IsU16 (length payload)
      → Ends b
          (3 + length payload)
          (fpga HciState.decode s err cfg
            (op_echo ∷ u16_field (length payload) (payload ++ rest))
            trace)
          err
          cfg
          rest
          (trace ++ replies payload)
  deliver_echo [] rest trace h = (
    silent 2 0 s.addr,
    run_trans b 3 0 _ (echo_header b s err cfg 0 rest trace) (
        unfold run in
        ap (fpga HciState.decode (silent 2 0 s.addr) err cfg rest) (sym (append-nil trace))),
  )
  deliver_echo (p ∷ payload) rest trace h =
      let n = length payload in
      let nz : (suc n == 0) ≡ false = ground arith in
      let (s', loop) = echo_loop b err cfg (silent 2 (suc n) s.addr) p payload rest trace refl h in
      (
        s',
        run_trans b 3 (suc n) _
            (rw nz at (echo_header b s err cfg (suc n) (p ∷ (payload ++ rest)) trace)) loop,
      )

  -- The registers after a packet, and what the interface did meanwhile.
  abbrev Delivered : Command → List ℕ → List Event → Type 0
  Delivered c rest trace =
      (s' : Scratch) × (run b (clocks c) (fpga HciState.decode s err cfg (encode c ++ rest) trace)
        ≡ fpga (state_after c) s' err (cfg_after cfg c) rest (trace ++ effects b trace c))

  deliver_quietly :
      (s' : Scratch) (st : HciState) (rest : List ℕ) (trace : List Event)
      → fpga st s' err cfg rest trace ≡ fpga st s' err cfg rest (trace ++ [])
  deliver_quietly s' st rest trace = ap (fpga st s' err cfg rest) (sym (append-nil trace))

  deliver_cart :
      (v w x y z : ℕ) (rest : List ℕ) (trace : List Event)
      → IsWellFormed (Command.cart_set_cfg v w x y z)
      → Delivered (Command.cart_set_cfg v w x y z) rest trace
  unfolding run clock
  deliver_cart v w x y z rest trace h =
      let raw : run b 7
            (fpga HciState.decode s err cfg (encode (Command.cart_set_cfg v w x y z) ++ rest) trace)
          ≡ fpga HciState.decode cart_scratch err (shift_in_5 cfg v w x y z) rest
              (trace ++ cart_update (shift_in_5 cfg v w x y z) ∷ []) =
        refl in
      (
        cart_scratch,
        raw
            ∙ ap (λ c. fpga HciState.decode cart_scratch err c rest (trace ++ cart_update c ∷ []))
                (shift_in_5_lem cfg v w x y z h),
      )
    where
      cart_scratch : Scratch
      cart_scratch = record (silent 0 0x1FFFF s.addr) { cart_cfg_upd = true }

  -- A well-formed command in the receive queue of a halted FPGA, with no byte late: after as many
  -- clocks as the command takes, exactly its bytes are gone from the queue, the board saw exactly the
  -- effects of the command and its answer was sent, the cartridge configuration is the one that it
  -- leaves, the error code is unchanged, and the interface decodes again, or is disabled after
  -- `dbg_run`. The board is arbitrary.
  pub deliver :
      (c : Command) (rest : List ℕ) (trace : List Event) → IsWellFormed c → Delivered c rest trace
  unfolding run clock
  deliver (Command.echo payload) rest trace h = deliver_echo payload rest trace h.0
  deliver (Command.cpu_mem_rd addr n) rest trace h = deliver_read cpu addr n rest trace h.1
  deliver (Command.cpu_mem_wr addr payload) rest trace h =
      deliver_write cpu addr payload rest trace h.1
  deliver Command.dbg_hlt rest trace h =
      (silent 0 s.execute_cnt s.addr, deliver_quietly _ _ rest trace)
  deliver Command.dbg_run rest trace h =
      (silent 0 s.execute_cnt s.addr, deliver_quietly _ _ rest trace)
  deliver (Command.cpu_reg_rd reg) rest trace h =
      (sent 0 s.execute_cnt s.addr (b.dbgreg trace (reg % 16)), refl)
  deliver (Command.cpu_reg_wr reg v) rest trace h = (silent 0 s.execute_cnt reg, refl)
  deliver Command.query_hlt rest trace h = (sent 0 s.execute_cnt s.addr 1, refl)
  deliver (Command.ppu_mem_rd addr n) rest trace h = deliver_read ppu addr n rest trace h.1
  deliver (Command.ppu_mem_wr addr payload) rest trace h =
      deliver_write ppu addr payload rest trace h.1
  deliver Command.ppu_disable rest trace h = (
    silent 6 s.execute_cnt 0,
    ap (fpga HciState.decode (silent 6 s.execute_cnt 0) err cfg rest)
        (append_assoc trace (cpu_write 0x2000 0 ∷ []) (cpu_write 0x2001 0 ∷ [])),
  )
  deliver (Command.cart_set_cfg v w x y z) rest trace h = deliver_cart v w x y z rest trace h
