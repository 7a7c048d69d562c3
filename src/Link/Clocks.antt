-- ===== src/Link/Clocks.antt =====
-- How the interface of hw/src/hci/hci.v takes the bytes of a packet off the queue, clock by clock.
use Prim.Native.Nat.add
use fpga_nes.Prelude.{
  ℕ, zero, suc, ◌+◌, ◌≡◌, refl, ap, ◌∙◌, Bool, false, List, [], ◌∷◌, ◌++◌, append_assoc, arith,
  length, if◌then◌else◌, ◌==◌,
}
use fpga_nes.Memory.{IsU16}
use fpga_nes.Hci.{HciState, next_addr, count_down}
use fpga_nes.Link.{Event, Board, Fpga, cpu_write, ppu_write, quiet, clock, run}

-- The registers that a packet leaves behind and that no later packet depends on.
pub record Scratch : Type 0 where
  pub decode_cnt : ℕ
  pub execute_cnt : ℕ
  pub addr : ℕ
  pub cart_cfg_upd : Bool
  pub tx_data : ℕ
  pub wr_en : Bool

abbrev pub fpga : HciState → Scratch → ℕ → ℕ → List ℕ → List Event → Fpga
fpga st s err cfg rx trace = record {
  regs = record {
    state = st;
    decode_cnt = s.decode_cnt;
    execute_cnt = s.execute_cnt;
    addr = s.addr;
    err_code = err;
    cart_cfg = cfg;
    cart_cfg_upd = s.cart_cfg_upd;
    tx_data = s.tx_data;
    wr_en = s.wr_en;
  };
  rx = rx;
  trace = trace;
}

-- Registers while the interface sends nothing.
abbrev pub silent : ℕ → ℕ → ℕ → Scratch
silent dc ec ad = record {
  decode_cnt = dc;
  execute_cnt = ec;
  addr = ad;
  cart_cfg_upd = false;
  tx_data = 0;
  wr_en = false;
}

pub run-add : (b : Board) (m n : ℕ) (f : Fpga) → run b (m + n) f ≡ run b n (run b m f)
unfolding run
run-add b zero n f = rw add.zero
run-add b (suc m) n f = rw add.suc (run-add b m n (clock b quiet f))

-- Two runs one after the other.
pub run_trans :
    (b : Board) (m n : ℕ) (f : Fpga) {g h : Fpga}
    → run b m f ≡ g
    → run b n g ≡ h
    → run b (m + n) f ≡ h
run_trans b m n f p q = run-add b m n f ∙ ap (run b n) p ∙ q

abbrev pub writes : (ℕ → ℕ → Event) → ℕ → List ℕ → List Event
writes ev a [] = []
writes ev a (p ∷ ps) = ev a p ∷ writes ev (next_addr a) ps

abbrev pub skip : ℕ → List ℕ → ℕ
skip a [] = a
skip a (p ∷ ps) = skip (next_addr a) ps

-- The two memories that the interface serves by the same stages.
pub data Port : Type 0 where
  cpu ppu : Port

abbrev pub wr_stg_1 : Port → HciState
wr_stg_1 cpu = HciState.cpu_mem_wr_stg_1
wr_stg_1 ppu = HciState.ppu_mem_wr_stg_1

abbrev pub wr_event : Port → ℕ → ℕ → Event
wr_event cpu = cpu_write
wr_event ppu = ppu_write

module _ (b : Board) (err cfg : ℕ) where
  -- A byte of a write packet goes to memory.
  write_clock :
      (port : Port) (s : Scratch) (p : ℕ) (rx : List ℕ) (trace : List Event)
      → clock b quiet (fpga (wr_stg_1 port) s err cfg (p ∷ rx) trace)
        ≡ fpga
            (if count_down s.execute_cnt == 0 then HciState.decode else wr_stg_1 port)
            (silent s.decode_cnt (count_down s.execute_cnt) (next_addr s.addr))
            err
            cfg
            rx
            (trace ++ wr_event port s.addr p ∷ [])
  unfolding clock
  write_clock cpu s p rx trace = refl
  write_clock ppu s p rx trace = refl

  pub write_last :
      (port : Port) (s : Scratch) (p : ℕ) (rx : List ℕ) (trace : List Event)
      → s.execute_cnt ≡ 1
      → clock b quiet (fpga (wr_stg_1 port) s err cfg (p ∷ rx) trace)
        ≡ fpga HciState.decode
            (silent s.decode_cnt 0 (next_addr s.addr))
            err
            cfg
            rx
            (trace ++ wr_event port s.addr p ∷ [])
  write_last port s p rx trace e =
      let z : count_down s.execute_cnt ≡ 0 = omega arith in rw z at (write_clock port s p rx trace)

  pub write_more :
      (port : Port) (s : Scratch) (p n : ℕ) (rx : List ℕ) (trace : List Event)
      → s.execute_cnt ≡ suc (suc n)
      → IsU16 (suc n)
      → clock b quiet (fpga (wr_stg_1 port) s err cfg (p ∷ rx) trace)
        ≡ fpga
            (wr_stg_1 port)
            (silent s.decode_cnt (suc n) (next_addr s.addr))
            err
            cfg
            rx
            (trace ++ wr_event port s.addr p ∷ [])
  write_more port s p n rx trace e h =
      let z : count_down s.execute_cnt ≡ suc n = omega arith in
      let nz : (suc n == 0) ≡ false = ground arith in rw (z, nz) at (write_clock port s p rx trace)

  -- The rest of a write packet: each byte goes to the next address.
  pub write_loop :
      (port : Port) (s : Scratch) (p : ℕ) (payload rest : List ℕ) (trace : List Event)
      → s.execute_cnt ≡ length (p ∷ payload)
      → IsU16 (length (p ∷ payload))
      → run b (length (p ∷ payload)) (fpga (wr_stg_1 port) s err cfg (p ∷ (payload ++ rest)) trace)
        ≡ fpga HciState.decode
            (silent s.decode_cnt 0 (skip s.addr (p ∷ payload)))
            err
            cfg
            rest
            (trace ++ writes (wr_event port) s.addr (p ∷ payload))
  unfolding run
  write_loop port s p [] rest trace e h = write_last port s p rest trace e
  write_loop port s p (q ∷ payload) rest trace e h =
      let n = length payload in
      let s' = silent s.decode_cnt (suc n) (next_addr s.addr) in
      let trace' = trace ++ wr_event port s.addr p ∷ [] in
      ap (run b (suc n)) (write_more port s p n (q ∷ (payload ++ rest)) trace e (omega arith))
      ∙ write_loop port s' q payload rest trace' refl (omega arith)
      ∙ ap
          (fpga HciState.decode (silent s.decode_cnt 0 (skip s.addr (p ∷ q ∷ payload))) err cfg
            rest)
          (append_assoc trace _ _)
