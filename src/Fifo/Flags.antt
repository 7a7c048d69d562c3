-- ===== src/Fifo/Flags.antt =====
-- The flags of hw/src/cmn/fifo/fifo.v against the number of entries.
use fpga_nes.Prelude.{
  ℕ, ◌+◌, ◌-◌, ◌<◌, ◌≤◌, ◌≡◌, refl, ◌∙◌, Bool, true, false, not, ◌&&◌, ◌||◌, List, [], ◌∷◌, length,
  All, arith, ◌==◌,
}
use mathlib.Core.Path.{subst}
use fpga_nes.Fifo.{Fifo, FifoInputs, rd_en_prot, wr_en_prot, depth, step}
use fpga_nes.Fifo.Queue.{Holds, after, one_if, length-after, count_one, room_one}
use fpga_nes.Fifo.Order.{IsNoReset, step-Holds, run_fifo}

-- The next flags, of `k` entries in `n` places with exact flags.
exact_lem :
    (n k : ℕ) (re we : Bool)
    → 1 < n
    → k ≤ n
    → ((re && we) && (k == 1 || n - k == 1)) ≡ false
    → (((k == 0 && not (we && not (k == n))) || (k == 1 && (re && not (k == 0))))
        ≡ (k + one_if (we && not (k == n)) - one_if (re && not (k == 0)) == 0))
      × (((k == n && not (re && not (k == 0))) || (n - k == 1 && (we && not (k == n))))
          ≡ (k + one_if (we && not (k == n)) - one_if (re && not (k == 0)) == n))
exact_lem n k re we deep le apart = ground arith

module _ (addr_bits : ℕ) where
  -- The flags say whether the queue is empty, and whether it is full.
  pub record AreExact (q : Fifo) (xs : List ℕ) : Type 0 where
    pub empty_exact : q.empty ≡ (length xs == 0)
    pub full_exact : q.full ≡ (length xs == depth addr_bits)

  -- The flags stay exact over a clock without reset, unless it reads and writes at once while the queue
  -- holds one entry or has one place free.
  pub step-AreExact :
      (w : FifoInputs) (q : Fifo) (xs : List ℕ)
      → 1 < depth addr_bits
      → IsNoReset w
      → Holds addr_bits q xs
      → AreExact q xs
      → ((w.rd_en && w.wr_en) && (length xs == 1 || depth addr_bits - length xs == 1)) ≡ false
      → AreExact (step addr_bits w q) (after (rd_en_prot w q) (wr_en_prot w q) w.wr_data xs)
  unfolding step
  step-AreExact w q xs deep off h exact apart =
      let flags = exact_lem (depth addr_bits) (length xs) w.rd_en w.wr_en deep h.fits apart in
      let some_left : (w.rd_en && not (length xs == 0)) ≡ true → 1 ≤ length xs =
        λ e. ground arith in
      let size =
        length-after (w.rd_en && not (length xs == 0))
          (w.wr_en && not (length xs == depth addr_bits)) w.wr_data xs some_left in
      rw off (
        rw exact.empty_exact (
          rw exact.full_exact (record {
            empty_exact = rw size (rw (count_one addr_bits q xs deep h) flags.0);
            full_exact = rw size (rw (room_one addr_bits q xs deep h) flags.1);
          })))

  abbrev pub IsQuietWrite : FifoInputs → Type 0
  IsQuietWrite w = (w.rst ≡ false) × (w.wr_en ≡ false)

  -- Without a write, a queue that says it is empty goes on saying so, and nothing is read.
  stays_empty_clock :
      (w : FifoInputs) (q : Fifo)
      → IsQuietWrite w
      → q.empty ≡ true
      → (step addr_bits w q).empty ≡ true
  unfolding step
  stays_empty_clock w q (on, quiet) e = rw on (rw quiet (rw e refl))

  hides_clock :
      (w : FifoInputs) (q : Fifo) (x : ℕ)
      → 1 < depth addr_bits
      → IsNoReset w
      → Holds addr_bits q (x ∷ [])
      → rd_en_prot w q ≡ true
      → (step addr_bits w q).empty ≡ true
  unfolding step
  hides_clock w q x deep off h reads =
      rw off (rw reads (rw (count_one addr_bits q (x ∷ []) deep h) (ground arith)))

  stays_empty :
      (ws : List FifoInputs) (q : Fifo)
      → All IsQuietWrite ws
      → q.empty ≡ true
      → ((run_fifo addr_bits ws q).0 ≡ []) × ((run_fifo addr_bits ws q).2.empty ≡ true)
  stays_empty [] q off e = (refl, e)
  stays_empty (w ∷ ws) q ((on, quiet), offs) e =
      let later = stays_empty ws (step addr_bits w q) offs (stays_empty_clock w q (on, quiet) e) in
      let closed : rd_en_prot w q ≡ false = ground arith in (rw closed later.0, later.1)

  -- A queue of more than two places that holds one entry, with exact flags, and is read and written in
  -- the same clock: it then holds the new entry and says that it is empty, and as long as nothing else
  -- is written, whatever the reads, nothing comes out of it and it goes on saying so.
  pub step-hides :
      (w : FifoInputs) (q : Fifo) (x : ℕ) (ws : List FifoInputs)
      → 2 < depth addr_bits
      → IsNoReset w
      → Holds addr_bits q (x ∷ [])
      → AreExact q (x ∷ [])
      → w.rd_en ≡ true
      → w.wr_en ≡ true
      → All IsQuietWrite ws
      → Holds addr_bits (step addr_bits w q) (w.wr_data ∷ [])
        × ((step addr_bits w q).empty ≡ true)
        × ((run_fifo addr_bits ws (step addr_bits w q)).0 ≡ [])
        × ((run_fifo addr_bits ws (step addr_bits w q)).2.empty ≡ true)
  step-hides w q x ws deep off h exact reads writes quiet =
      let not_full : q.full ≡ false = exact.full_exact ∙ ground arith in
      let reads' : rd_en_prot w q ≡ true = rw reads (rw exact.empty_exact refl) in
      let writes' : wr_en_prot w q ≡ true = rw writes (rw not_full refl) in
      let only : after (rd_en_prot w q) (wr_en_prot w q) w.wr_data (x ∷ []) ≡ w.wr_data ∷ [] =
        rw reads' (rw writes' refl) in
      let hidden = hides_clock w q x (omega arith) off h reads' in
      let later = stays_empty ws (step addr_bits w q) quiet hidden in
      (
        subst (λ l. Holds addr_bits (step addr_bits w q) l) only
            (step-Holds addr_bits w q (x ∷ []) (omega arith) off h),
        hidden,
        later.0,
        later.1,
      )
