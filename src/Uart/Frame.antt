-- ===== src/Uart/Frame.antt =====
-- A byte on the wire between hw/src/cmn/uart/uart_tx.v and uart_rx.v, apart from both: a start bit, the
-- data bits with the lowest first, a parity bit and a stop bit, each a level for some clocks.
use fpga_nes.Prelude.{
  ℕ, ◌+◌, ◌-◌, ◌*◌, ◌/◌, ◌%◌, ◌≤◌, ◌<◌, ◌≡◌, ap, ◌∙◌, Bool, true, false, List, [], ◌∷◌, ◌==◌, arith,
}

-- The level of the wire in each clock.
abbrev pub Wire : Type 0
Wire = ℕ → Bool

-- The level is `bit` for `n` clocks from the clock `at` on.
abbrev pub Level : Wire → ℕ → ℕ → Bool → Type 0
Level line at n bit = (i : ℕ) → i < n → line (at + i) ≡ bit

-- The levels of a list, each for `n` clocks.
abbrev pub Levels : Wire → ℕ → ℕ → List Bool → Type 0
Levels line at n [] = Unit {0}
Levels line at n (x ∷ xs) = Level line at n x × Levels line (at + n) n xs

-- The bit of weight `w`.
abbrev pub bit_at : ℕ → ℕ → Bool
bit_at w byte = byte / w % 2 == 1

abbrev pub bits_after_start : ℕ → Bool → List Bool
bits_after_start byte parity =
    bit_at 1 byte
    ∷ bit_at 2 byte
    ∷ bit_at 4 byte
    ∷ bit_at 8 byte
    ∷ bit_at 16 byte
    ∷ bit_at 32 byte
    ∷ bit_at 64 byte
    ∷ bit_at 128 byte
    ∷ parity
    ∷ true
    ∷ []

-- A byte with this parity bit, its start bit of `a` clocks and every other bit of `b` clocks.
abbrev pub IsFrame : Wire → ℕ → ℕ → ℕ → ℕ → Bool → Type 0
IsFrame line at a b byte parity =
    Level line at a false × Levels line (at + a) b (bits_after_start byte parity)

-- A byte on the wire, with the idle clocks before it and the clocks of its start bit.
pub record Byte : Type 0 where
  pub idle_clocks : ℕ
  pub start_clocks : ℕ
  pub byte : ℕ
  pub parity : Bool

-- Such bytes one after the other, and the clocks they take.
abbrev pub Sends : Wire → ℕ → ℕ → List Byte → Type 0
Sends line b at [] = Unit {0}
Sends line b at (f ∷ fs) =
    Level line at f.idle_clocks true
    × IsFrame line (at + f.idle_clocks) f.start_clocks b f.byte f.parity
    × Sends line b (at + f.idle_clocks + (f.start_clocks + 10 * b)) fs

abbrev pub clocks : ℕ → List Byte → ℕ
clocks b [] = 0
clocks b (f ∷ fs) = f.idle_clocks + ((f.start_clocks + 10 * b) + clocks b fs)

pub Level-at :
    (line : Wire) (at n x : ℕ) {bit : Bool}
    → Level line at n bit
    → at ≤ x
    → x < at + n
    → line x ≡ bit
Level-at line at n x h lo hi = ap line (omega arith) ∙ h (x - at) (omega arith)

-- A wire that is another one from its clock `n` on.
module _ (f g : Wire) (n : ℕ) (same : (i : ℕ) → g (n + i) ≡ f i) where
  pub Level-shift :
      (at at' m : ℕ) (bit : Bool) → at' ≡ n + at → Level f at m bit → Level g at' m bit
  Level-shift at at' m bit e h i lt = ap g (omega (arith, e)) ∙ same (at + i) ∙ h i lt

  pub Levels-shift :
      (at at' m : ℕ) (bits : List Bool) → at' ≡ n + at → Levels f at m bits → Levels g at' m bits
  Levels-shift at at' m [] e h = tt
  Levels-shift at at' m (x ∷ xs) e (h, hs) =
      (Level-shift at at' m x e h, Levels-shift (at + m) (at' + m) m xs (omega (arith, e)) hs)

  pub Sends-shift :
      (at at' b : ℕ) (fs : List Byte) → at' ≡ n + at → Sends f b at fs → Sends g b at' fs
  Sends-shift at at' b [] e h = tt
  Sends-shift at at' b (x ∷ xs) e (gap, frame, rest) = (
    Level-shift at at' x.idle_clocks true e gap,
    (
      Level-shift (at + x.idle_clocks) (at' + x.idle_clocks) x.start_clocks false (omega (arith, e))
          frame.0,
      Levels-shift (at + x.idle_clocks + x.start_clocks) (at' + x.idle_clocks + x.start_clocks) b
          (bits_after_start x.byte x.parity) (omega (arith, e)) frame.1,
    ),
    Sends-shift (at + x.idle_clocks + (x.start_clocks + 10 * b))
        (at' + x.idle_clocks + (x.start_clocks + 10 * b)) b xs (omega (arith, e)) rest,
  )
