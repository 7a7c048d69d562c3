-- ===== src/Link/Schedule.antt =====
-- The interface of hw/src/hci/hci.v on wires that stall: bytes that are late, a transmit queue that is
-- full.
use mathlib.Core.Path.{subst}
use fpga_nes.Prelude.{
  ℕ, zero, suc, ◌+◌, ◌%◌, ◌≤◌, ◌≡◌, refl, sym, ap, ap₂, ◌∙◌, ◌⊎◌, inl, inr, Bool, true, false, not,
  ◌&&◌, List, [], ◌∷◌, arith, length, All, if◌then◌else◌, ◌==◌, Bool-cases,
}
use fpga_nes.Hci.{HciState, cycle}
use fpga_nes.Link.{Event, Board, Wires, Fpga, clock, quiet, run}
use fpga_nes.Link.Clocks.{Scratch, fpga, Port, cpu, ppu}
use fpga_nes.Link.Reads.{rd_stg_1}

-- The state without the registers that hold for one clock only: the byte and the request for the UART,
-- and the pulse for the cartridge.
abbrev pub settle : Fpga → Fpga
settle f = record f { regs = record f.regs { cart_cfg_upd = false; tx_data = 0; wr_en = false } }

-- No break by the CPU and no parity error.
abbrev pub IsCalm : Wires → Type 0
IsCalm w = (w.parity_err ≡ false) × (w.brk ≡ false)

-- The next byte may be taken, and the UART has room.
abbrev pub is_ready : Wires → Bool
is_ready w = w.rx_ready && not w.tx_full

module _ (b : Board) where
  -- A clock reads none of the registers that hold for one clock.
  clock-settle : (w : Wires) (f : Fpga) → clock b w f ≡ clock b w (settle f)
  unfolding clock cycle
  clock-settle w f = refl

  -- The wires of a clock on which only the two stalls are left to chance.
  abbrev wires : Bool → Bool → Wires
  wires ready full = record { rx_ready = ready; tx_full = full; parity_err = false; brk = false }

  -- A clock that does what a quiet one does, or one that was not ready and stalls.
  abbrev Steps : Wires → Fpga → Type 0
  Steps w f =
      (clock b w f ≡ clock b quiet f) ⊎ ((settle (clock b w f) ≡ settle f) × (is_ready w ≡ false))

  disable_step :
      (s : Scratch) (err cfg : ℕ) (rx : List ℕ) (trace : List Event) (ready full : Bool)
      → clock b (wires ready full) (fpga HciState.ppu_disable s err cfg rx trace)
        ≡ clock b quiet (fpga HciState.ppu_disable s err cfg rx trace)
  unfolding clock cycle
  disable_step s err cfg rx trace ready full = ground arith

  not_ready : (ready : Bool) → (ready && not true) ≡ false
  not_ready true = refl
  not_ready false = refl

  -- A read sends its byte once the UART has room.
  read_step :
      (port : Port) (s : Scratch) (err cfg : ℕ) (rx : List ℕ) (trace : List Event)
      (ready full : Bool)
      → Steps (wires ready full) (fpga (rd_stg_1 port) s err cfg rx trace)
  unfolding clock cycle
  read_step cpu s err cfg rx trace ready false = inl refl
  read_step ppu s err cfg rx trace ready false = inl refl
  read_step cpu s err cfg rx trace ready true = elim (Bool-cases (s.execute_cnt % 2 == 0)) [
    | inl e ↦ inl (rw e)
    | inr e ↦ inr (rw e, not_ready ready)
  ]
  read_step ppu s err cfg rx trace ready true = elim (Bool-cases (s.execute_cnt % 2 == 0)) [
    | inl e ↦ inl (rw e)
    | inr e ↦ inr (rw e, not_ready ready)
  ]

  wires_step :
      (st : HciState) (s : Scratch) (err cfg : ℕ) (rx : List ℕ) (trace : List Event)
      (ready full : Bool)
      → Steps (wires ready full) (fpga st s err cfg rx trace)
  unfolding clock cycle
  wires_step st s err cfg rx trace true false = inl refl
  wires_step HciState.cpu_mem_rd_stg_1 s err cfg rx trace ready full =
      read_step cpu s err cfg rx trace ready full
  wires_step HciState.ppu_mem_rd_stg_1 s err cfg rx trace ready full =
      read_step ppu s err cfg rx trace ready full
  wires_step HciState.cpu_reg_rd s err cfg rx trace false full = inr (refl, refl)
  wires_step HciState.cpu_reg_rd s err cfg [] trace true true = inl refl
  wires_step HciState.cpu_reg_rd s err cfg (x ∷ rx) trace true true = inr (refl, refl)
  wires_step HciState.query_err_code s err cfg rx trace ready true = inr (refl, not_ready ready)
  wires_step HciState.query_err_code s err cfg rx trace ready false = inl refl
  wires_step HciState.ppu_disable s err cfg rx trace ready full =
      inl (disable_step s err cfg rx trace ready full)
  wires_step HciState.cart_set_cfg_stg_0 s err cfg rx trace ready full = inl refl
  wires_step _ s err cfg rx trace true true = inl refl
  wires_step _ s err cfg rx trace false full = inr (refl, refl)

  scratch : Fpga → Scratch
  scratch f = record {
    decode_cnt = f.regs.decode_cnt;
    execute_cnt = f.regs.execute_cnt;
    addr = f.regs.addr;
    cart_cfg_upd = f.regs.cart_cfg_upd;
    tx_data = f.regs.tx_data;
    wr_en = f.regs.wr_en;
  }

  clock_step : (w : Wires) (f : Fpga) → IsCalm w → Steps w f
  unfolding scratch
  clock_step w f (calm_parity, calm_brk) =
      let same : wires w.rx_ready w.tx_full ≡ w =
        ap₂ (λ p q. record { rx_ready = w.rx_ready; tx_full = w.tx_full; parity_err = p; brk = q })
          (sym calm_parity) (sym calm_brk) in
      subst (λ v. Steps v f) same
        (wires_step f.regs.state (scratch f) f.regs.err_code f.regs.cart_cfg f.rx f.trace w.rx_ready
          w.tx_full)

  -- The same clocks from states that differ only in what holds for one clock.
  settle-clock : (w : Wires) (f g : Fpga) → settle f ≡ settle g → clock b w f ≡ clock b w g
  settle-clock w f g e = clock-settle w f ∙ ap (clock b w) e ∙ sym (clock-settle w g)

  pub settle-run :
      (k : ℕ) (f g : Fpga) → settle f ≡ settle g → settle (run b k f) ≡ settle (run b k g)
  unfolding run
  settle-run zero f g e = e
  settle-run (suc k) f g e = ap (λ h. settle (run b k h)) (settle-clock quiet f g e)

  -- The clocks of a schedule of wires.
  unfoldable pub run_on : List Wires → Fpga → Fpga
  run_on [] f = f
  run_on (w ∷ ws) f = run_on ws (clock b w f)

abbrev pub ready_clocks : List Wires → ℕ
ready_clocks [] = 0
ready_clocks (w ∷ ws) = (if is_ready w then 1 else 0) + ready_clocks ws

-- Any schedule of wires without a parity error and without a break by the CPU, from any state: what the
-- interface has done is what it does in some number of clocks on quiet wires, and that number is at
-- least the number of clocks of the schedule in which the next byte may be taken and the UART has room,
-- and at most the number of all its clocks.
-- So stalls delay the interface, and neither lose, repeat nor reorder anything. Compared are all
-- registers but those that hold for one clock, the receive queue, and all that the board saw and that
-- was sent back.
pub run_on_lem :
    (b : Board) (ws : List Wires) (f : Fpga)
    → All IsCalm ws
    → (k : ℕ) × (ready_clocks ws ≤ k)
      × (k ≤ length ws)
      × (settle (run_on b ws f) ≡ settle (run b k f))
unfolding run_on run
run_on_lem b [] f calm = (0, omega arith, omega arith, refl)
run_on_lem b (w ∷ ws) f (calm, rest) = elim (clock_step b w f calm) [
  | inl moves ↦
      let (k, enough, few, same) = run_on_lem b ws (clock b quiet f) rest in
      (suc k, ground arith, omega arith, ap (λ g. settle (run_on b ws g)) moves ∙ same)
  | inr (stalls, slow) ↦
      let (k, enough, few, same) = run_on_lem b ws (clock b w f) rest in
      (k, rw slow (omega arith), omega arith, same ∙ settle-run b k (clock b w f) f stalls)
]
