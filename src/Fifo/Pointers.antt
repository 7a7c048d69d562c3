-- ===== src/Fifo/Pointers.antt =====
-- Pointers of hw/src/cmn/fifo/fifo.v as remainders of positions that never wrap.
use fpga_nes.Prelude.{
  ℕ, zero, suc, ◌+◌, ◌-◌, ◌%◌, ◌≤◌, ◌<◌, ◌≡◌, ◌≢◌, refl, sym, ap, ◌∙◌, ◌⊎◌, inl, inr, true, false,
  ==_iff, Bool-cases, ap₂, List, [], ◌∷◌, ◌++◌, arith, ◌==◌,
}
use native.Mathlib.Nat.{mod-lt, mod-eq_of_lt, mod-add-mod, add-mod_right, mod-eq-sub-mod}
use fpga_nes.Fifo.{store}

module _ (n : ℕ) where
  -- The entries from position `p` on.
  abbrev pub entries : (ℕ → ℕ) → ℕ → ℕ → List ℕ
  entries mem p zero = []
  entries mem p (suc k) = mem (p % n) ∷ entries mem (p + 1) k

  lt_or_ge : (x y : ℕ) → (x < y) ⊎ (y ≤ x)
  lt_or_ge x y = ground arith

  -- A remainder of a number below twice the modulus.
  pub wrap : (x : ℕ) → x < n + n → ((x < n) × (x % n ≡ x)) ⊎ ((n ≤ x) × (x % n ≡ x - n))
  wrap x h = elim (lt_or_ge x n) [
    | inl lt ↦ inl (lt, mod-eq_of_lt lt)
    | inr ge ↦ inr (ge, mod-eq-sub-mod ge ∙ mod-eq_of_lt (omega arith))
  ]

  -- The pointer `k` behind position `p`.
  behind :
      (p k : ℕ)
      → 0 < n
      → k ≤ n
      → (p % n + k < n) × ((p + k) % n ≡ p % n + k)
        ⊎ (n ≤ p % n + k) × ((p + k) % n ≡ p % n + k - n)
  behind p k h le =
      let small : p % n < n = mod-lt p h in
      rw (sym (mod-add-mod p n k)) (wrap (p % n + k) (omega arith))

  -- The difference of two pointers is that of their positions.
  pub diff_lem : (p k : ℕ) → 0 < n → k ≤ n → ((p + k) % n + n - p % n) % n ≡ k % n
  diff_lem p k h le =
      let small : p % n < n = mod-lt p h in
      elim (behind p k h le) [
        | inl (lt, e) ↦
            let same : (p + k) % n + n - p % n ≡ k + n = omega arith in
            ap (λ x. x % n) same ∙ add-mod_right k n
        | inr (ge, e) ↦ let same : (p + k) % n + n - p % n ≡ k = omega arith in ap (λ x. x % n) same
      ]

  pub reverse_diff_lem : (p k : ℕ) → 0 < n → k ≤ n → (p % n + n - (p + k) % n) % n ≡ (n - k) % n
  reverse_diff_lem p k h le =
      let small : p % n < n = mod-lt p h in
      elim (behind p k h le) [
        | inl (lt, e) ↦
            let same : p % n + n - (p + k) % n ≡ n - k = omega arith in ap (λ x. x % n) same
        | inr (ge, e) ↦
            let same : p % n + n - (p + k) % n ≡ n - k + n = omega arith in
            ap (λ x. x % n) same ∙ add-mod_right (n - k) n
      ]

  -- Two positions less than `n` apart have different pointers.
  distinct : (p w : ℕ) → p < w → w < p + n → p % n ≢ w % n
  distinct p w lt near e =
      let h : 0 < n = omega arith in
      let small : p % n < n = mod-lt p h in
      let reach : p + (w - p) ≡ w = omega arith in
      elim (behind p (w - p) h (omega arith)) [
        | inl (below, at) ↦
            let at' : w % n ≡ p % n + (w - p) = ap (λ x. x % n) (sym reach) ∙ at in omega arith
        | inr (above, at) ↦
            let at' : w % n ≡ p % n + (w - p) - n = ap (λ x. x % n) (sym reach) ∙ at in omega arith
      ]

  -- A store behind the last entry changes none of them.
  pub entries-store :
      (mem : ℕ → ℕ) (v w p k : ℕ)
      → p + k ≤ w
      → w < p + n
      → entries (store mem (w % n) v) p k ≡ entries mem p k
  entries-store mem v w p zero h near = refl
  entries-store mem v w p (suc k) h near =
      let apart : (p % n == w % n) ≡ false = ground (arith, distinct p w (omega arith) near) in
      rw apart
        (ap (λ l. mem (p % n) ∷ l) (entries-store mem v w (p + 1) k (omega arith) (omega arith)))

  pub entries_append :
      (mem : ℕ → ℕ) (w p k : ℕ)
      → p + k ≡ w
      → entries mem p (suc k) ≡ entries mem p k ++ mem (w % n) ∷ []
  entries_append mem w p zero e = let same : p ≡ w = omega arith in ap (λ x. mem (x % n) ∷ []) same
  entries_append mem w p (suc k) e =
      ap (λ l. mem (p % n) ∷ l) (entries_append mem w (p + 1) k (omega arith))

  -- The register that a store names holds what was stored.
  pub store_same : (mem : ℕ → ℕ) (i v : ℕ) → store mem i v i ≡ v
  store_same mem i v = let same : (i == i) ≡ true = ground arith in rw same

  store_old : (mem : ℕ → ℕ) (w i : ℕ) → store mem w (mem w) i ≡ mem i
  store_old mem w i = elim (Bool-cases (i == w)) [
    | inl here ↦ rw here (ap mem (sym ((==_iff i w).0 here)))
    | inr there ↦ rw there
  ]

  -- To store what a register holds changes nothing.
  pub entries-store_old :
      (mem : ℕ → ℕ) (w p k : ℕ) → entries (store mem w (mem w)) p k ≡ entries mem p k
  entries-store_old mem w p zero = refl
  entries-store_old mem w p (suc k) =
      ap₂ (λ x l. x ∷ l) (store_old mem w (p % n)) (entries-store_old mem w (p + 1) k)
