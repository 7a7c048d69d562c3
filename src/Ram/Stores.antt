-- ===== src/Ram/Stores.antt =====
-- Consecutive stores to a memory of hw/src/cmn/block_ram/block_ram.v whose addresses are folded.
use fpga_nes.Prelude.{
  ℕ, zero, suc, ◌+◌, ◌<◌, ◌≡◌, ◌≢◌, refl, ap, ◌∙◌, some, List, [], ◌∷◌, arith, length, get_elem?,
}
use fpga_nes.Ram.{ram_store}

module _ (fold : ℕ → ℕ) where
  -- The words of a list at the addresses from `a` on.
  unfoldable pub stores : ℕ → List ℕ → (ℕ → ℕ) → ℕ → ℕ
  stores a [] mem = mem
  stores a (x ∷ xs) mem = stores (a + 1) xs (ram_store mem (fold a) x)

  pub stores-other :
      (xs : List ℕ) (a c : ℕ) (mem : ℕ → ℕ)
      → ((j : ℕ) → j < length xs → fold (a + j) ≢ c)
      → stores a xs mem c ≡ mem c
  unfolding stores
  stores-other [] a c mem h = refl
  stores-other (x ∷ xs) a c mem h =
      stores-other xs (a + 1) c (ram_store mem (fold a) x)
        (λ j lt. λ q. h (suc j) (omega arith) (ap fold (omega arith) ∙ q))
      ∙ ground (arith, h 0 (omega arith))

  -- No two of the addresses are folded to one: each word can be read back.
  pub stores_lem :
      (xs : List ℕ) (a i x : ℕ) (mem : ℕ → ℕ)
      → ((j k : ℕ) → j < k → k < length xs → fold (a + k) ≢ fold (a + j))
      → get_elem? xs i ≡ some x
      → stores a xs mem (fold (a + i)) ≡ x
  unfolding stores
  stores_lem [] a i x mem apart h = absurd (cc)
  stores_lem (y ∷ xs) a zero x mem apart h =
      ap (stores (a + 1) xs (ram_store mem (fold a) y)) (ap fold (omega arith))
      ∙ stores-other xs (a + 1) (fold a) (ram_store mem (fold a) y) (λ j lt q.
        apart 0 (suc j) (omega arith) (omega arith)
          (ap fold (omega arith) ∙ q ∙ ap fold (omega arith)))
      ∙ ground (arith, h)
  stores_lem (y ∷ xs) a (suc i) x mem apart h =
      ap (stores (a + 1) xs (ram_store mem (fold a) y)) (ap fold (omega arith))
      ∙ stores_lem xs (a + 1) i x (ram_store mem (fold a) y)
          (λ j k lt few q.
            apart (suc j) (suc k) (omega arith) (omega arith)
              (ap fold (omega arith) ∙ q ∙ ap fold (omega arith)))
          h
