-- ===== src/LoadRom/Memory.antt =====
-- The blocks that `NesDbg::LoadRom` of sw/src/nesdbg.cpp sends, as writes to memory.
use fpga_nes.Prelude.{
  ℕ, zero, suc, ◌+◌, ◌*◌, ◌≡◌, refl, sym, ap, ◌∙◌, List, [], ◌∷◌, ◌++◌, append-nil, arith, length,
  length-take, length-drop, take, drop, All,
}
use fpga_nes.Memory.{IsByte, IsU16, u16}
use fpga_nes.Protocol.{Command, IsWellFormed}
use fpga_nes.Link.{Event, Board}
use fpga_nes.Link.Clocks.{writes}
use fpga_nes.Link.Effects.{effects, cfg_after, history, cfg_after_all}
use fpga_nes.Link.Session.{IsSession, StaysHalted}
use fpga_nes.Link.Laws.{All-take, All-drop, writes_split}
use fpga_nes.LoadRom.Blocks.{block_commands}

module _ (mk : ℕ → List ℕ → Command) (base block : ℕ) where
  pub history-block_commands :
      (b : Board) (ev : ℕ → ℕ → Event)
      → ((trace : List Event) (a : ℕ) (p : List ℕ) → effects b trace (mk a p) ≡ writes ev a p)
      → (rounds i : ℕ) (rom : List ℕ) (trace : List Event) → length rom ≡ rounds * block
      → history b trace (block_commands mk base block rounds i rom)
        ≡ trace ++ writes ev (u16 (base + block * i)) rom
  history-block_commands b ev effect zero i [] trace h = sym (append-nil trace)
  history-block_commands b ev effect zero i (x ∷ rom) trace h = absurd (omega arith)
  history-block_commands b ev effect (suc rounds) i rom trace h =
      let here = base + block * i in
      let trace' = trace ++ writes ev (u16 here) (take block rom) in
      let later : base + block * (i + 1) ≡ here + block = omega arith in
      ap
        (λ l. history b (trace ++ l) (block_commands mk base block rounds (i + 1) (drop block rom)))
        (effect trace (u16 here) (take block rom))
      ∙ history-block_commands b ev effect rounds (i + 1) (drop block rom) trace'
          (omega (arith, length-drop block rom))
      ∙ ap (λ a. trace' ++ writes ev (u16 a) (drop block rom)) later
      ∙ writes_split ev here block rom trace (omega arith)

  pub cfg_after_all-block_commands :
      (cfg : ℕ)
      → ((a : ℕ) (p : List ℕ) → cfg_after cfg (mk a p) ≡ cfg)
      → (rounds i : ℕ) (rom : List ℕ)
      → cfg_after_all cfg (block_commands mk base block rounds i rom) ≡ cfg
  cfg_after_all-block_commands cfg keeps zero i rom = refl
  cfg_after_all-block_commands cfg keeps (suc rounds) i rom =
      ap (λ c. cfg_after_all c (block_commands mk base block rounds (i + 1) (drop block rom)))
        (keeps (u16 (base + block * i)) (take block rom))
      ∙ cfg_after_all-block_commands cfg keeps rounds (i + 1) (drop block rom)

  pub IsSession-block_commands :
      IsU16 block
      → ((a : ℕ) (p : List ℕ)
          → IsU16 a
          → IsU16 (length p)
          → All IsByte p
          → IsWellFormed (mk a p) × StaysHalted (mk a p))
      → (rounds i : ℕ) (rom : List ℕ) → length rom ≡ rounds * block
      → All IsByte rom
      → IsSession (block_commands mk base block rounds i rom)
  IsSession-block_commands small wf zero i rom h bytes = tt
  IsSession-block_commands small wf (suc rounds) i rom h bytes = (
    wf (u16 (base + block * i)) (take block rom) (omega arith)
        (omega (arith, length-take block rom (omega arith))) (All-take IsByte block rom bytes),
    IsSession-block_commands small wf rounds (i + 1) (drop block rom)
        (omega (arith, length-drop block rom)) (All-drop IsByte block rom bytes),
  )
