-- ===== src/Strings/Paths.antt =====
-- The paths of sw/src/scriptmgrdlg.cpp and sw/src/scriptmgr.cpp.
use fpga_nes.Prelude.{
  ℕ, ◌+◌, ◌^◌, ◌<◌, ◌≡◌, sym, ap, ◌∙◌, List, [], ◌∷◌, ◌++◌, length, length-append, arith,
}
use fpga_nes.Memory.{new_bytes, length-new_bytes}
use fpga_nes.Strings.{Crt, IsCrt, Reads, IsText, u32, join_path}

-- A buffer as long as a text and its 0 has nothing behind them.
full :
    (buffer text : List ℕ)
    → Reads buffer text
    → length buffer ≡ length text + 1
    → buffer ≡ text ++ 0 ∷ []
full buffer text ([], made) size = made
full buffer text (ch ∷ rest, made) size =
    absurd (omega (arith, length-append text (0 ∷ ch ∷ rest), ap length made))

-- With a C library that keeps its documentation: a directory and a name whose lengths and the 0 fit in 32
-- bits are joined in a buffer that holds both, one behind the other, and their 0, and not one character
-- more.
pub join_path_lem :
    (crt : Crt) (garbage : ℕ → ℕ) (dir name rest rest' : List ℕ)
    → IsCrt crt
    → IsText dir
    → IsText name
    → length dir + length name + 1 < 2 ^ 32
    → join_path crt garbage (dir ++ 0 ∷ rest) (name ++ 0 ∷ rest') ≡ dir ++ name ++ 0 ∷ []
unfolding join_path
join_path_lem crt garbage dir name rest rest' law dir_text name_text short =
    let size = length dir + length name + 1 in
    let counted : u32 (crt.tcslen (dir ++ 0 ∷ rest) + crt.tcslen (name ++ 0 ∷ rest') + 1) ≡ size =
      omega (arith, law.len dir rest dir_text, law.len name rest' name_text) in
    let ((behind, copied), kept) =
      law.copy (new_bytes garbage size) size dir rest dir_text (length-new_bytes garbage size)
        (omega arith) in
    let (joined, whole) =
      law.append size dir behind name rest' dir_text name_text (ap length (sym copied) ∙ kept)
        (omega arith) in
    rw (counted, join_path)
      (rw copied (full _ (dir ++ name) joined (whole ∙ omega (arith, length-append dir name))))
