-- ===== src/Uart/Pins/Views.antt =====
-- The host interface down to its pins, as its receiver and as its queues see it.
use fpga_nes.Prelude.{
  ℕ, zero, suc, ◌≡◌, refl, sym, ap, ◌∙◌, Bool, true, false, ◌||◌, ◌&&◌, not, List, [], ◌∷◌, ◌++◌,
  append-nil, append_assoc, All, if◌then◌else◌, Bool-cases, inl, inr, arith,
}
use fpga_nes.Link.{Board}
use fpga_nes.Uart.{Line, System, system_clock, run_system, received}
use fpga_nes.Uart.Session.{IsCleanLine}
use fpga_nes.Uart.Rx.{RxBlock, rx_block_clock, listen}
use fpga_nes.Uart.Pins.{Chip, line_of, chip_clock, run_chip, lines_of}

-- The bytes that the receiver hands over.
abbrev pub handed : List Line → List ℕ
handed [] = []
handed (l ∷ ls) = if l.rx_done_tick then l.rx_byte ∷ handed ls else handed ls

-- The receiver of a chip that has handed over `ws`.
abbrev pub receiver : List ℕ → Chip → RxBlock
receiver ws c = record {
  baud_cnt = c.baud_cnt;
  regs = c.rx;
  written = ws;
  rx_parity_err = c.system.uart.parity_err;
}

neither : (x y : Bool) → (x || y) ≡ false → (x ≡ false) × (y ≡ false)
neither x y h = ground arith

one_handed : (l : Line) (ls : List Line) → handed (l ∷ []) ++ handed ls ≡ handed (l ∷ ls)
one_handed l ls = elim (Bool-cases l.rx_done_tick) [ inl e ↦ rw e | inr e ↦ rw e ]

module _ (b : Board) (t mode : ℕ) (line : ℕ → Bool) where
  pub run_chip-run_system :
      (n at : ℕ) (c : Chip)
      → (run_chip b t mode line at n c).system
        ≡ run_system b (lines_of b t mode line at n c) c.system
  unfolding run_chip run_system lines_of chip_clock
  run_chip-run_system zero at c = refl
  run_chip-run_system (suc n) at c =
      run_chip-run_system n (suc at) (chip_clock b t mode (line at) false c)

  clock-receiver :
      (pin : Bool) (c : Chip) (ws : List ℕ)
      → rx_block_clock t mode pin (receiver ws c)
        ≡ receiver (ws ++ handed (line_of false c ∷ [])) (chip_clock b t mode pin false c)
  unfolding rx_block_clock chip_clock system_clock
  clock-receiver pin c ws = elim (Bool-cases c.rx.done_tick) [
    | inl e ↦ rw e
    | inr e ↦ rw e (rw (append-nil ws))
  ]

  pub run_chip-listen :
      (n at : ℕ) (c : Chip) (ws : List ℕ)
      → listen t mode line at n (receiver ws c)
        ≡ receiver (ws ++ handed (lines_of b t mode line at n c)) (run_chip b t mode line at n c)
  unfolding run_chip lines_of listen
  run_chip-listen zero at c ws = ap (λ us. receiver us c) (sym (append-nil ws))
  run_chip-listen (suc n) at c ws =
      let l = line_of false c in
      let c' = chip_clock b t mode (line at) false c in
      ap (listen t mode line (suc at) n) (clock-receiver (line at) c ws)
      ∙ run_chip-listen n (suc at) c' (ws ++ handed (l ∷ []))
      ∙ ap (λ us. receiver us (run_chip b t mode line (suc at) n c'))
          (append_assoc ws (handed (l ∷ [])) (handed (lines_of b t mode line (suc at) n c'))
            ∙ ap (λ us. ws ++ us) (one_handed l (lines_of b t mode line (suc at) n c')))

  -- A parity flip flop that is off at the end was off all the time.
  pub lines_of-clean :
      (n at : ℕ) (c : Chip)
      → (run_chip b t mode line at n c).system.uart.parity_err ≡ false
      → All IsCleanLine (lines_of b t mode line at n c) × (c.system.uart.parity_err ≡ false)
  unfolding run_chip lines_of chip_clock system_clock
  lines_of-clean zero at c off = (tt, off)
  lines_of-clean (suc n) at c off =
      let (clean, still) = lines_of-clean n (suc at) (chip_clock b t mode (line at) false c) off in
      let (before, here) = neither c.system.uart.parity_err c.rx.parity_err still in
      (((here, refl), clean), before)

-- The receive queue has room for every byte that comes.
unfoldable pub has_room : Board → List Line → System → Bool
has_room b [] s = true
has_room b (l ∷ ls) s =
    not (l.rx_done_tick && s.uart.rx_fifo.full) && has_room b ls (system_clock b l s)

-- A byte is written where it comes and there is room.
written :
    (comes full rest : Bool) (x : ℕ) (xs ys : List ℕ)
    → (not (comes && full) && rest) ≡ true
    → (rest ≡ true → xs ≡ ys)
    → (if comes && not full then x ∷ [] else []) ++ xs ≡ (if comes then x ∷ ys else ys)
written true false rest x xs ys h e = ap (λ us. x ∷ us) (e h)
written true true rest x xs ys h e = cc
written false full rest x xs ys h e = e h

pub received-handed :
    (b : Board) (ls : List Line) (s : System) → has_room b ls s ≡ true → received b ls s ≡ handed ls
unfolding received has_room
received-handed b [] s h = refl
received-handed b (l ∷ ls) s h =
    written l.rx_done_tick s.uart.rx_fifo.full (has_room b ls (system_clock b l s)) l.rx_byte
      (received b ls (system_clock b l s)) (handed ls) h (received-handed b ls (system_clock b l s))
