-- ===== src/Strings/Convert.antt =====
-- The conversions of sw/src/util.h, for text in ASCII.
use fpga_nes.Prelude.{
  ℕ, ◌+◌, ◌^◌, ◌<◌, ◌≡◌, refl, Bool, true, false, List, [], ◌∷◌, ◌++◌, length, arith,
}
use fpga_nes.Memory.{new_bytes, length-new_bytes}
use fpga_nes.Strings.{
  Crt, IsCrt, Reads, IsText, IsAscii, u32, create_ascii_string, create_tchar_string, ascii_of_wide,
  wide_of_ascii,
}

pub IsText-ascii : (text : List ℕ) → IsAscii text → IsText text
IsText-ascii [] h = tt
IsText-ascii (ch ∷ text) ((low, high), h) = (λ e. omega arith, IsText-ascii text h)

module _ (crt : Crt) (law : IsCrt crt) (garbage : ℕ → ℕ) where
  counted :
      (text rest : List ℕ)
      → IsAscii text
      → length text + 1 < 2 ^ 32
      → u32 (crt.tcslen (text ++ 0 ∷ rest)) ≡ length text
  counted text rest ascii short =
      let len = law.len text rest (IsText-ascii text ascii) in omega arith

  narrowed :
      (text rest : List ℕ)
      → IsAscii text
      → length text + 1 < 2 ^ 32
      → Reads (create_ascii_string crt garbage true (text ++ 0 ∷ rest)) text
        × (length (create_ascii_string crt garbage true (text ++ 0 ∷ rest)) ≡ length text + 1)
  unfolding create_ascii_string
  narrowed text rest ascii short =
      rw (counted text rest ascii short, ascii_of_wide)
        (law.narrow (new_bytes garbage (length text + 1)) (length text + 1) text rest ascii
          (length-new_bytes garbage (length text + 1)) (omega arith))

  widened :
      (text rest : List ℕ)
      → IsAscii text
      → length text + 1 < 2 ^ 32
      → Reads (create_tchar_string crt garbage true (text ++ 0 ∷ rest)) text
        × (length (create_tchar_string crt garbage true (text ++ 0 ∷ rest)) ≡ length text + 1)
  unfolding create_tchar_string
  widened text rest ascii short =
      rw (counted text rest ascii short, wide_of_ascii)
        (law.widen (new_bytes garbage (length text + 1)) (length text + 1) text rest ascii
          (length-new_bytes garbage (length text + 1)) (omega arith))

  pub create_ascii_string_lem :
      (unicode : Bool) (text rest : List ℕ)
      → IsAscii text
      → length text + 1 < 2 ^ 32
      → Reads (create_ascii_string crt garbage unicode (text ++ 0 ∷ rest)) text
  unfolding create_ascii_string
  create_ascii_string_lem true text rest ascii short = (narrowed text rest ascii short).0
  create_ascii_string_lem false text rest ascii short = (rest, refl)

  pub create_tchar_string_lem :
      (unicode : Bool) (text rest : List ℕ)
      → IsAscii text
      → length text + 1 < 2 ^ 32
      → Reads (create_tchar_string crt garbage unicode (text ++ 0 ∷ rest)) text
  unfolding create_tchar_string
  create_tchar_string_lem true text rest ascii short = (widened text rest ascii short).0
  create_tchar_string_lem false text rest ascii short = (rest, refl)

-- With a C library that keeps its documentation, in builds with and without _UNICODE, a string in ASCII
-- shorter than 2 ^ 32 - 1 characters, converted to narrow characters and back, holds the same text, and
-- so it does between the two conversions.
pub create_tchar-create_ascii :
    (crt : Crt) (garbage : ℕ → ℕ) (unicode : Bool) (text rest : List ℕ)
    → IsCrt crt
    → IsAscii text
    → length text + 1 < 2 ^ 32
    → Reads (create_ascii_string crt garbage unicode (text ++ 0 ∷ rest)) text
      × Reads
          (create_tchar_string crt garbage unicode
            (create_ascii_string crt garbage unicode (text ++ 0 ∷ rest)))
          text
create_tchar-create_ascii crt garbage unicode text rest law ascii short =
    let (rest', made) = create_ascii_string_lem crt law garbage unicode text rest ascii short in
    (
      (rest', made),
      rw made (create_tchar_string_lem crt law garbage unicode text rest' ascii short),
    )
