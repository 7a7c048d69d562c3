-- ===== src/Fifo/Queue.antt =====
-- hw/src/cmn/fifo/fifo.v as a queue: the entries that it holds, in order.
use fpga_nes.Prelude.{
  ℕ, suc, ◌+◌, ◌-◌, ◌%◌, ◌≤◌, ◌<◌, ◌≡◌, refl, sym, ap, ap₂, ◌∙◌, inl, inr, Bool, true, false, not,
  ◌&&◌, ◌||◌, List, [], ◌∷◌, ◌++◌, append-nil, length, length-append, arith, ◌==◌, if◌then◌else◌,
}
use native.Mathlib.Nat.{mod-add-mod, mod-eq_of_lt, mod_self}
use fpga_nes.Fifo.{Fifo, depth, ptr_diff, move, store}
use fpga_nes.Fifo.Pointers.{
  wrap, entries, diff_lem, reverse_diff_lem, entries-store, entries_append, store_same,
  entries-store_old,
}

abbrev pub tail : List ℕ → List ℕ
tail [] = []
tail (x ∷ xs) = xs

-- The entries after a clock.
abbrev pub after : Bool → Bool → ℕ → List ℕ → List ℕ
after rd wr v xs = (if rd then tail xs else xs) ++ (if wr then v ∷ [] else [])

abbrev pub one_if : Bool → ℕ
one_if b = if b then 1 else 0

pub length-after :
    (rd wr : Bool) (v : ℕ) (xs : List ℕ)
    → (rd ≡ true → 1 ≤ length xs)
    → length (after rd wr v xs) ≡ length xs + one_if wr - one_if rd
length-after true wr v [] some_left = absurd (omega (arith, some_left refl))
length-after false false v xs some_left = omega (arith, length-append xs [])
length-after false true v xs some_left = omega (arith, length-append xs (v ∷ []))
length-after true false v (x ∷ xs) some_left = omega (arith, length-append xs [])
length-after true true v (x ∷ xs) some_left = omega (arith, length-append xs (v ∷ []))

module _ (addr_bits : ℕ) where
  -- The queue holds `xs`, the oldest first. `first` is the position of the first entry, counted without
  -- end. An empty flag allows one entry, a full flag one free place.
  pub record Holds (q : Fifo) (xs : List ℕ) : Type 0 where
    pub first : ℕ
    pub rd_at : q.rd_ptr ≡ first % depth addr_bits
    pub wr_at : q.wr_ptr ≡ (first + length xs) % depth addr_bits
    pub fits : length xs ≤ depth addr_bits
    pub stored : entries (depth addr_bits) q.data_array first (length xs) ≡ xs
    pub if_empty : q.empty ≡ true → length xs ≤ 1
    pub if_not_empty : q.empty ≡ false → 1 ≤ length xs
    pub if_full : q.full ≡ true → depth addr_bits ≤ length xs + 1
    pub if_not_full : q.full ≡ false → length xs < depth addr_bits

  remainder_one :
      (k : ℕ) → 1 < depth addr_bits → k ≤ depth addr_bits → (k % depth addr_bits == 1) ≡ (k == 1)
  remainder_one k deep le = elim (wrap (depth addr_bits) k (omega arith)) [
    | inl (lt, e) ↦ rw e
    | inr (ge, e) ↦
        let none_left : (k % depth addr_bits == 1) ≡ false = ground arith in
        let many : (k == 1) ≡ false = ground arith in none_left ∙ sym many
  ]

  pub count_one :
      (q : Fifo) (xs : List ℕ)
      → 1 < depth addr_bits
      → Holds q xs
      → (ptr_diff addr_bits q.wr_ptr q.rd_ptr == 1) ≡ (length xs == 1)
  count_one q xs deep h = rw h.wr_at (
      rw h.rd_at (
        rw (diff_lem (depth addr_bits) h.first (length xs) (omega arith) h.fits)
          (remainder_one (length xs) deep h.fits)))

  pub room_one :
      (q : Fifo) (xs : List ℕ)
      → 1 < depth addr_bits
      → Holds q xs
      → (ptr_diff addr_bits q.rd_ptr q.wr_ptr == 1) ≡ (depth addr_bits - length xs == 1)
  room_one q xs deep h = rw h.wr_at (
      rw h.rd_at (
        rw (reverse_diff_lem (depth addr_bits) h.first (length xs) (omega arith) h.fits)
          (remainder_one (depth addr_bits - length xs) deep (omega arith))))

  -- The flags after a clock fit the number of entries then.
  flags_lem :
      (n k : ℕ) (rd wr e f : Bool)
      → 1 < n
      → k ≤ n
      → (e ≡ true → k ≤ 1)
      → (e ≡ false → 1 ≤ k)
      → (f ≡ true → n ≤ k + 1)
      → (f ≡ false → k < n)
      → (rd ≡ true → e ≡ false)
      → (wr ≡ true → f ≡ false)
      → (k + one_if wr - one_if rd ≤ n)
        × (((e && not wr) || (k == 1 && rd)) ≡ true → k + one_if wr - one_if rd ≤ 1)
        × (((e && not wr) || (k == 1 && rd)) ≡ false → 1 ≤ k + one_if wr - one_if rd)
        × (((f && not rd) || (n - k == 1 && wr)) ≡ true → n ≤ k + one_if wr - one_if rd + 1)
        × (((f && not rd) || (n - k == 1 && wr)) ≡ false → k + one_if wr - one_if rd < n)
  flags_lem n k rd wr e f deep le he hne hf hnf hr hw = ground arith

  assemble :
      (rd wr : Bool) (v : ℕ) (q : Fifo) (xs ys : List ℕ) (p : ℕ)
      → 1 < depth addr_bits
      → (rd ≡ true → q.empty ≡ false)
      → (wr ≡ true → q.full ≡ false)
      → Holds q xs
      → length ys ≡ length xs + one_if wr - one_if rd
      → (move addr_bits rd wr v q).rd_ptr ≡ p % depth addr_bits
      → (move addr_bits rd wr v q).wr_ptr ≡ (p + length ys) % depth addr_bits
      → entries (depth addr_bits) (move addr_bits rd wr v q).data_array p (length ys) ≡ ys
      → Holds (move addr_bits rd wr v q) ys
  assemble rd wr v q xs ys p deep rd_ok wr_ok h size rd_at wr_at stored =
      let flags =
        flags_lem (depth addr_bits) (length xs) rd wr q.empty q.full deep h.fits h.if_empty
          h.if_not_empty h.if_full h.if_not_full rd_ok wr_ok in
      record {
        first = p;
        rd_at = rd_at;
        wr_at = wr_at;
        fits = rw size flags.0;
        stored = stored;
        if_empty = rw size (rw (count_one q xs deep h) flags.1);
        if_not_empty = rw size (rw (count_one q xs deep h) flags.2);
        if_full = rw size (rw (room_one q xs deep h) flags.3);
        if_not_full = rw size (rw (room_one q xs deep h) flags.4);
      }

  -- What stands behind the entries joins them when it is written.
  written :
      (mem : ℕ → ℕ) (v p w : ℕ) (xs : List ℕ)
      → p + length xs ≡ w
      → length xs < depth addr_bits
      → entries (depth addr_bits) mem p (length xs) ≡ xs
      → entries (depth addr_bits) (store mem (w % depth addr_bits) v) p (length (xs ++ v ∷ []))
        ≡ xs ++ v ∷ []
  written mem v p w xs at room stored =
      let n = depth addr_bits in
      let size : length (xs ++ v ∷ []) ≡ suc (length xs) =
        omega (arith, length-append xs (v ∷ [])) in
      ap (entries n (store mem (w % n) v) p) size
      ∙ entries_append n (store mem (w % n) v) w p (length xs) at
      ∙ ap₂ (λ l y. l ++ y ∷ [])
          (entries-store n mem v w p (length xs) (omega arith) (omega arith) ∙ stored)
          (store_same n mem (w % n) v)

  advance :
      (ptr w w' : ℕ)
      → ptr ≡ w % depth addr_bits
      → w + 1 ≡ w'
      → (ptr + 1) % depth addr_bits ≡ w' % depth addr_bits
  advance ptr w w' at e =
      ap (λ x. (x + 1) % depth addr_bits) at
      ∙ mod-add-mod w (depth addr_bits) 1
      ∙ ap (λ x. x % depth addr_bits) e

  pub move-Holds :
      (rd wr : Bool) (v : ℕ) (q : Fifo) (xs : List ℕ)
      → 1 < depth addr_bits
      → (rd ≡ true → q.empty ≡ false)
      → (wr ≡ true → q.full ≡ false)
      → Holds q xs
      → Holds (move addr_bits rd wr v q) (after rd wr v xs)
  move-Holds false false v q xs deep rd_ok wr_ok h = rw (append-nil xs) (
      assemble false false v q xs xs h.first deep rd_ok wr_ok h (omega arith) h.rd_at h.wr_at
        (entries-store_old (depth addr_bits) q.data_array q.wr_ptr h.first (length xs) ∙ h.stored))
  move-Holds false true v q xs deep rd_ok wr_ok h =
      let size : length (xs ++ v ∷ []) ≡ length xs + 1 = omega (arith, length-append xs (v ∷ [])) in
      assemble false true v q xs (xs ++ v ∷ []) h.first deep rd_ok wr_ok h (omega arith) h.rd_at
        (advance q.wr_ptr (h.first + length xs) (h.first + length (xs ++ v ∷ [])) h.wr_at
          (omega arith))
        (rw h.wr_at (
          written q.data_array v h.first (h.first + length xs) xs refl (h.if_not_full (wr_ok refl))
            h.stored))
  move-Holds true wr v q [] deep rd_ok wr_ok h = absurd (omega (arith, h.if_not_empty (rd_ok refl)))
  move-Holds true false v q (x ∷ xs) deep rd_ok wr_ok h = rw (append-nil xs) (
      assemble true false v q (x ∷ xs) xs (h.first + 1) deep rd_ok wr_ok h (omega arith)
        (advance q.rd_ptr h.first (h.first + 1) h.rd_at refl)
        (h.wr_at ∙ ap (λ k. k % depth addr_bits) (omega arith))
        (entries-store_old (depth addr_bits) q.data_array q.wr_ptr (h.first + 1) (length xs)
          ∙ ap tail h.stored))
  move-Holds true true v q (x ∷ xs) deep rd_ok wr_ok h =
      let size : length (xs ++ v ∷ []) ≡ length xs + 1 = omega (arith, length-append xs (v ∷ [])) in
      let fits = h.fits in
      assemble true true v q (x ∷ xs) (xs ++ v ∷ []) (h.first + 1) deep rd_ok wr_ok h (omega arith)
        (advance q.rd_ptr h.first (h.first + 1) h.rd_at refl)
        (advance q.wr_ptr (h.first + suc (length xs)) (h.first + 1 + length (xs ++ v ∷ [])) h.wr_at
          (omega arith))
        (rw h.wr_at (
          written q.data_array v (h.first + 1) (h.first + suc (length xs)) xs (omega arith)
            (omega arith) (ap tail h.stored)))

  -- A queue whose pointers meet and that does not say that it is full holds nothing.
  pub Holds-drained :
      (q : Fifo) (xs : List ℕ)
      → 0 < depth addr_bits
      → Holds q xs
      → q.rd_ptr ≡ q.wr_ptr
      → q.full ≡ false
      → xs ≡ []
  Holds-drained q [] deep h meet room = refl
  Holds-drained q (x ∷ xs) deep h meet room =
      let diff = diff_lem (depth addr_bits) h.first (length (x ∷ xs)) deep h.fits in
      let below = mod-eq_of_lt (h.if_not_full room) in
      let same : (h.first + length (x ∷ xs)) % depth addr_bits ≡ h.first % depth addr_bits =
        sym h.wr_at ∙ sym meet ∙ h.rd_at in
      let full : (h.first + length (x ∷ xs)) % depth addr_bits
            + depth addr_bits
            - h.first % depth addr_bits
          ≡ depth addr_bits =
        omega arith in
      let none_left : length (x ∷ xs) ≡ 0 =
        sym below ∙ sym diff ∙ ap (λ n. n % depth addr_bits) full ∙ mod_self (depth addr_bits) in
      absurd (omega arith)
