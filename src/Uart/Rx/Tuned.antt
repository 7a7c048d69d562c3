-- ===== src/Uart/Rx/Tuned.antt =====
-- The receiver of hw/src/cmn/uart/uart_rx.v and the clocks at which it samples a byte.
use fpga_nes.Prelude.{
  ℕ, suc, ◌+◌, ◌-◌, ◌*◌, ◌/◌, ◌%◌, ◌≤◌, ◌<◌, ◌≡◌, Bool, true, List, [], ◌∷◌, arith,
}
use fpga_nes.Uart.Frame.{Wire, IsFrame, Level-at, bit_at}
use fpga_nes.Uart.Rx.{shift_in}

-- The length of the start bit and of the other bits, in clocks, fit the `t` clocks of a tick.
abbrev pub IsInTune : ℕ → ℕ → ℕ → Type 0
IsInTune t a b =
    (a ≤ 23 * t + 1) × (a + 9 * b ≤ 167 * t + 1) × (24 * t < a + b) × (168 * t + 3 ≤ a + 10 * b)

shift_in-bit_at : (w byte d : ℕ) → shift_in (bit_at w byte) d ≡ byte / w % 2 * 128 + d / 2
shift_in-bit_at w byte d = ground arith

-- The data register after these bits.
abbrev pub shift_all : ℕ → List Bool → ℕ
shift_all d [] = d
shift_all d (x ∷ xs) = shift_all (shift_in x d) xs

-- The data bits but the last.
abbrev pub data_bits : ℕ → List Bool
data_bits byte =
    bit_at 1 byte
    ∷ bit_at 2 byte
    ∷ bit_at 4 byte
    ∷ bit_at 8 byte
    ∷ bit_at 16 byte
    ∷ bit_at 32 byte
    ∷ bit_at 64 byte
    ∷ []

pub shifted :
    (d byte : ℕ)
    → d < 256
    → byte < 256
    → shift_in (bit_at 128 byte) (shift_all d (data_bits byte)) ≡ byte
shifted d byte h k = simp shift_in-bit_at (omega arith)

module _ (t : ℕ) (line : Wire) where
  -- The levels at which the bits from the clock `from` on are sampled.
  abbrev pub Samples : ℕ → List Bool → Type 0
  Samples from [] = Unit {0}
  Samples from (x ∷ xs) = (line (from + 16 * t - 1) ≡ x) × Samples (from + 16 * t) xs

  -- What a receiver that samples the data bits from the clock `from` on finds of a frame.
  abbrev pub IsSampled : ℕ → ℕ → Bool → ℕ → Type 0
  IsSampled from byte parity end =
      Samples from (data_bits byte)
      × (line (from + 128 * t - 1) ≡ bit_at 128 byte)
      × (line (from + 144 * t - 1) ≡ parity)
      × ((x : ℕ) → from + 160 * t ≤ x → x < end → line x ≡ true)

  pub IsFrame-IsSampled :
      (at a b byte from : ℕ) (parity : Bool)
      → 0 < t
      → IsInTune t a b
      → suc at + 7 * t < from
      → from ≤ suc at + 8 * t
      → IsFrame line at a b byte parity
      → IsSampled from byte parity (at + a + 10 * b)
  IsFrame-IsSampled at a b byte from parity pos tune lo hi
        (start, (b0, (b1, (b2, (b3, (b4, (b5, (b6, (b7, (par, (stop, _))))))))))) =
      (
        (
          Level-at line (at + a) b _ b0 (omega arith) (omega arith),
          (
            Level-at line (at + a + b) b _ b1 (omega arith) (omega arith),
            (
              Level-at line (at + a + b + b) b _ b2 (omega arith) (omega arith),
              (
                Level-at line (at + a + b + b + b) b _ b3 (omega arith) (omega arith),
                (
                  Level-at line (at + a + b + b + b + b) b _ b4 (omega arith) (omega arith),
                  (
                    Level-at line (at + a + b + b + b + b + b) b _ b5 (omega arith) (omega arith),
                    (
                      Level-at line (at + a + b + b + b + b + b + b) b _ b6 (omega arith)
                          (omega arith),
                      tt,
                    ),
                  ),
                ),
              ),
            ),
          ),
        ),
        Level-at line (at + a + b + b + b + b + b + b + b) b _ b7 (omega arith) (omega arith),
        Level-at line (at + a + b + b + b + b + b + b + b + b) b _ par (omega arith) (omega arith),
        λ x l h.
            Level-at line (at + a + b + b + b + b + b + b + b + b + b) b x stop (omega arith)
              (omega arith),
      )
