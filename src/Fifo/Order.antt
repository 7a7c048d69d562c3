-- ===== src/Fifo/Order.antt =====
-- Runs of hw/src/cmn/fifo/fifo.v: what is written and what is read over many clocks.
use fpga_nes.Prelude.{
  ℕ, ◌<◌, ◌≤◌, ◌≡◌, refl, sym, ap, ◌∙◌, inl, inr, Bool, true, false, not, ◌&&◌, Bool-cases, List,
  [], ◌∷◌, ◌++◌, append_assoc, append-nil, length, All, arith, if◌then◌else◌,
}
use native.Mathlib.Nat.{zero-mod}
use fpga_nes.Fifo.{Fifo, FifoInputs, rd_en_prot, wr_en_prot, rd_data, depth, step}
use fpga_nes.Fifo.Queue.{Holds, after, move-Holds}

-- What a clock reads from the queue, and what it writes to it.
abbrev pub taken : FifoInputs → Fifo → List ℕ
taken w q = if rd_en_prot w q then rd_data q ∷ [] else []

abbrev pub accepted : FifoInputs → Fifo → List ℕ
accepted w q = if wr_en_prot w q then w.wr_data ∷ [] else []

abbrev pub IsNoReset : FifoInputs → Type 0
IsNoReset w = w.rst ≡ false

-- `a` is true, and `b` where `a && not b` says so.
enabled : (a b : Bool) → (a && not b) ≡ true → b ≡ false
enabled a b h = ground arith

module _ (addr_bits : ℕ) where
  -- What many clocks read and write, and the registers behind them.
  abbrev pub run_fifo : List FifoInputs → Fifo → List ℕ × List ℕ × Fifo
  run_fifo [] q = ([], [], q)
  run_fifo (w ∷ ws) q =
      let (out, into, q') = run_fifo ws (step addr_bits w q) in
      (taken w q ++ out, accepted w q ++ into, q')

  pub reset-Holds :
      (w : FifoInputs) (q : Fifo)
      → 0 < depth addr_bits
      → w.rst ≡ true
      → Holds addr_bits (step addr_bits w q) []
  unfolding step
  reset-Holds w q deep on = rw on (record {
    first = 0;
    rd_at = sym (zero-mod (depth addr_bits));
    wr_at = sym (zero-mod (depth addr_bits));
    fits = omega arith;
    stored = refl;
    if_empty = λ e. omega arith;
    if_not_empty = λ e. ground arith;
    if_full = λ e. ground arith;
    if_not_full = λ e. deep;
  })

  first_of : List ℕ → ℕ
  first_of [] = 0
  first_of (x ∷ xs) = x

  pub rd_data_lem : (q : Fifo) (x : ℕ) (xs : List ℕ) → Holds addr_bits q (x ∷ xs) → rd_data q ≡ x
  unfolding first_of
  rd_data_lem q x xs h = ap q.data_array h.rd_at ∙ ap first_of h.stored

  pub step-Holds :
      (w : FifoInputs) (q : Fifo) (xs : List ℕ)
      → 1 < depth addr_bits
      → IsNoReset w
      → Holds addr_bits q xs
      → Holds addr_bits (step addr_bits w q) (after (rd_en_prot w q) (wr_en_prot w q) w.wr_data xs)
  unfolding step
  step-Holds w q xs deep off h = rw off (
      move-Holds addr_bits (rd_en_prot w q) (wr_en_prot w q) w.wr_data q xs deep
        (enabled w.rd_en q.empty) (enabled w.wr_en q.full) h)

  -- Of one clock: the entries and what is written are what is read and the entries left.
  taken-after :
      (w : FifoInputs) (q : Fifo) (xs : List ℕ)
      → Holds addr_bits q xs
      → xs ++ accepted w q ≡ taken w q ++ after (rd_en_prot w q) (wr_en_prot w q) w.wr_data xs
  taken-after w q [] h = elim (Bool-cases (rd_en_prot w q)) [
    | inl e ↦ absurd (omega (arith, h.if_not_empty (enabled w.rd_en q.empty e)))
    | inr e ↦ rw e
  ]
  taken-after w q (x ∷ xs) h = elim (Bool-cases (rd_en_prot w q)) [
    | inl e ↦ rw e (ap (λ y. y ∷ (xs ++ accepted w q)) (sym (rd_data_lem q x xs h)))
    | inr e ↦ rw e
  ]

  -- A queue of at least two places that holds `xs`, over any clocks without a reset: what was in it and
  -- what was written while it was not full, in that order, is what was read while it was not empty,
  -- followed by what it holds at the end, so that no byte is lost, made up, doubled or out of order;
  -- and it never holds more than its places.
  pub run_fifo-order :
      (ws : List FifoInputs) (q : Fifo) (xs : List ℕ)
      → 1 < depth addr_bits
      → All IsNoReset ws
      → Holds addr_bits q xs
      → (ys : List ℕ) × Holds addr_bits (run_fifo ws q).2 ys
        × (xs ++ (run_fifo ws q).1 ≡ (run_fifo ws q).0 ++ ys)
        × (length ys ≤ depth addr_bits)
  run_fifo-order [] q xs deep off h = (xs, h, append-nil xs, h.fits)
  run_fifo-order (w ∷ ws) q xs deep (off, offs) h =
      let (ys, held, order, fits) =
        run_fifo-order ws (step addr_bits w q) _ deep offs (step-Holds w q xs deep off h) in
      let left = after (rd_en_prot w q) (wr_en_prot w q) w.wr_data xs in
      let (out, into, q') = run_fifo ws (step addr_bits w q) in
      (
        ys,
        held,
        sym (append_assoc xs (accepted w q) into)
            ∙ ap (λ l. l ++ into) (taken-after w q xs h)
            ∙ append_assoc (taken w q) left into
            ∙ ap (λ l. taken w q ++ l) order
            ∙ sym (append_assoc (taken w q) out ys),
        fits,
      )
