-- ===== src/Prelude/Bits.antt =====
-- Bit operations on bytes as arithmetic, compared by running both over every byte.
use Prim.Native.Nat.{ℕ, zero, suc, ◌+◌, ◌*◌, ◌/◌, ◌%◌, ◌≤◌, ◌<◌, bit_and, bit_or}
use mathlib.Core.Path.{◌≡◌, refl, sym, ap, ap₂, ◌∙◌}
use mathlib.Core.Bool.{Bool, true, false}
use mathlib.Core.Logic.{inl, inr}
use native.Mathlib.Omega.{arith}
use fpga_nes.Prelude.Tests.{◌==◌, ==_iff, if◌then◌else◌, Bool-cases}

-- Whether two functions have the same values at the `rounds` numbers from `i` on.
agree_from : (ℕ → ℕ) → (ℕ → ℕ) → ℕ → ℕ → Bool
agree_from f g i zero = true
agree_from f g i (suc rounds) =
    let rest = agree_from f g (i + 1) rounds in if f i == g i then rest else false

both : (p q : Bool) → (if p then q else false) ≡ true → (p ≡ true) × (q ≡ true)
both true q h = (refl, h)
both false q h = absurd (cc)

agree_from_lem :
    (f g : ℕ → ℕ) (i rounds x : ℕ)
    → agree_from f g i rounds ≡ true
    → i ≤ x
    → x < i + rounds
    → f x ≡ g x
unfolding agree_from
agree_from_lem f g i zero x same low high = absurd (omega arith)
agree_from_lem f g i (suc rounds) x same low high =
    let (at_i, behind_i) = both (f i == g i) (agree_from f g (i + 1) rounds) same in
    elim (Bool-cases (x == i)) [
      | inl here ↦
          let e = (==_iff x i).0 here in ap f e ∙ (==_iff (f i) (g i)).0 at_i ∙ sym (ap g e)
      | inr later ↦ agree_from_lem f g (i + 1) rounds x behind_i (ground arith) (omega arith)
    ]

nibble_rows : agree_from (λ x. bit_and x 0xF) (λ x. x % 16) 0 256 ≡ true
unfolding agree_from
nibble_rows = refl

-- `x & 0xF` of a byte is its low nibble.
pub low_nibble : (x : ℕ) → x < 256 → bit_and x 0xF ≡ x % 16
low_nibble x h =
    agree_from_lem (λ y. bit_and y 0xF) (λ y. y % 16) 0 256 x nibble_rows (omega arith)
      (omega arith)

-- Two halves put together again, for each byte.
rejoin : ℕ → ℕ
rejoin x = bit_or (x / 16 * 16) (x % 16)

rejoin_rows : agree_from rejoin (λ x. x) 0 256 ≡ true
unfolding agree_from rejoin
rejoin_rows = refl

-- `(hi << 4) | lo` of two nibbles.
pub join_nibbles : (hi lo : ℕ) → hi < 16 → lo < 16 → bit_or (hi * 16) lo ≡ hi * 16 + lo
unfolding rejoin
join_nibbles hi lo h l =
    let high : hi * 16 ≡ (hi * 16 + lo) / 16 * 16 = omega arith in
    let low : lo ≡ (hi * 16 + lo) % 16 = omega arith in
    ap₂ bit_or high low
    ∙ agree_from_lem rejoin (λ x. x) 0 256 (hi * 16 + lo) rejoin_rows (omega arith) (omega arith)

abbrev flag : Bool → ℕ
flag true = 1
flag false = 0

flag_lem : (b : Bool) → flag b ≡ 1 → b ≡ true
flag_lem true e = refl
flag_lem false e = absurd (omega arith)

-- For one high byte: 1 if `lo | (hi << 8)` is the sum for every low byte.
row : ℕ → ℕ
row hi = flag (agree_from (λ lo. bit_or lo (hi * 256)) (λ lo. lo + hi * 256) 0 256)

rows : agree_from row (λ hi. 1) 0 256 ≡ true
unfolding agree_from row
rows = refl

-- `lo | (hi << 8)` of two bytes.
pub join_bytes : (lo hi : ℕ) → lo < 256 → hi < 256 → bit_or lo (hi * 256) ≡ lo + hi * 256
unfolding row
join_bytes lo hi l h =
    agree_from_lem (λ x. bit_or x (hi * 256)) (λ x. x + hi * 256) 0 256 lo
      (flag_lem _ (agree_from_lem row (λ x. 1) 0 256 hi rows (omega arith) (omega arith)))
      (omega arith) (omega arith)

or_rows : agree_from (λ x. bit_or x 0) (λ x. x) 0 256 ≡ true
unfolding agree_from
or_rows = refl

pub bit_or-zero : (x : ℕ) → x < 256 → bit_or x 0 ≡ x
bit_or-zero x h =
    agree_from_lem (λ y. bit_or y 0) (λ y. y) 0 256 x or_rows (omega arith) (omega arith)

zero_rows : agree_from (λ x. bit_or 0 x) (λ x. x) 0 256 ≡ true
unfolding agree_from
zero_rows = refl

pub zero-bit_or : (x : ℕ) → x < 256 → bit_or 0 x ≡ x
zero-bit_or x h =
    agree_from_lem (λ y. bit_or 0 y) (λ y. y) 0 256 x zero_rows (omega arith) (omega arith)

third_rows : agree_from (λ x. bit_and x 0x08) (λ x. x / 8 % 2 * 8) 0 256 ≡ true
unfolding agree_from
third_rows = refl

-- `x & 0x08` of a byte is its bit 3.
pub third_bit : (x : ℕ) → x < 256 → bit_and x 0x08 ≡ x / 8 % 2 * 8
third_bit x h =
    agree_from_lem (λ y. bit_and y 0x08) (λ y. y / 8 % 2 * 8) 0 256 x third_rows (omega arith)
      (omega arith)

high_rows : agree_from (λ x. bit_and x 0xF0) (λ x. x / 16 * 16) 0 256 ≡ true
unfolding agree_from
high_rows = refl

-- `x & 0xF0` of a byte is its high nibble, in place.
pub high_nibble : (x : ℕ) → x < 256 → bit_and x 0xF0 ≡ x / 16 * 16
high_nibble x h =
    agree_from_lem (λ y. bit_and y 0xF0) (λ y. y / 16 * 16) 0 256 x high_rows (omega arith)
      (omega arith)

-- The two halves the other way round.
rejoin_low : ℕ → ℕ
rejoin_low x = bit_or (x % 16) (x / 16 * 16)

rejoin_low_rows : agree_from rejoin_low (λ x. x) 0 256 ≡ true
unfolding agree_from rejoin_low
rejoin_low_rows = refl

-- `lo | (hi << 4)` of two nibbles.
pub join_low : (lo hi : ℕ) → lo < 16 → hi < 16 → bit_or lo (hi * 16) ≡ lo + hi * 16
unfolding rejoin_low
join_low lo hi l h =
    let low : lo ≡ (lo + hi * 16) % 16 = omega arith in
    let high : hi * 16 ≡ (lo + hi * 16) / 16 * 16 = omega arith in
    ap₂ bit_or low high
    ∙ agree_from_lem rejoin_low (λ x. x) 0 256 (lo + hi * 16) rejoin_low_rows (omega arith)
        (omega arith)
