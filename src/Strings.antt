-- ===== src/Strings.antt =====
-- Strings of the program: the conversions of sw/src/util.h, the paths that sw/src/scriptmgrdlg.cpp and
-- sw/src/scriptmgr.cpp put together, and the output of the test script dialog. A string is a buffer of
-- characters with a 0 behind its text. The functions of the C library are the argument `Crt`.
pub mod Convert
pub mod Paths
use fpga_nes.Prelude.{
  ℕ, ◌+◌, ◌%◌, ◌^◌, ◌≤◌, ◌<◌, ◌≡◌, ◌≢◌, Bool, true, false, not, ◌&&◌, Option, none, some, List, [],
  ◌∷◌, ◌++◌, length, All, if◌then◌else◌, ◌>>=◌,
}
use fpga_nes.Memory.{new_bytes}

-- The functions of the C library: the length of a string; copy and append, to a buffer of a size;
-- conversion to a buffer of a size, of a string and a number of its characters; and the formatted
-- text for a buffer of a size, with its arguments, `none` where the function ends the program.
pub record Crt : Type 0 where
  pub tcslen : List ℕ → ℕ
  pub tcscpy_s : List ℕ → ℕ → List ℕ → List ℕ
  pub tcscat_s : List ℕ → ℕ → List ℕ → List ℕ
  pub wcstombs_s : List ℕ → ℕ → List ℕ → ℕ → List ℕ
  pub mbstowcs_s : List ℕ → ℕ → List ℕ → ℕ → List ℕ
  pub vstprintf_s : ℕ → List ℕ → List (List ℕ) → Option (List ℕ)

-- The buffer holds the text.
abbrev pub Reads : List ℕ → List ℕ → Type 0
Reads buffer text = (rest : List ℕ) × (buffer ≡ text ++ 0 ∷ rest)

abbrev pub IsText : List ℕ → Type 0
IsText = All (λ ch. ch ≢ 0)

abbrev pub IsAscii : List ℕ → Type 0
IsAscii = All (λ ch. (0 < ch) × (ch < 128))

abbrev pub IsPlain : List ℕ → Type 0
IsPlain = All (λ ch. (0 < ch) × (ch ≢ b'%'))

-- What the documentation of the library says of them, where the code relies on it.
pub record IsCrt (crt : Crt) : Type 0 where
  pub len : (text rest : List ℕ) → IsText text → crt.tcslen (text ++ 0 ∷ rest) ≡ length text
  pub copy :
      (dest : List ℕ) (size : ℕ) (text rest : List ℕ)
      → IsText text
      → length dest ≡ size
      → length text < size
      → Reads (crt.tcscpy_s dest size (text ++ 0 ∷ rest)) text
        × (length (crt.tcscpy_s dest size (text ++ 0 ∷ rest)) ≡ size)
  pub append :
      (size : ℕ) (text rest more rest' : List ℕ)
      → IsText text
      → IsText more
      → length (text ++ 0 ∷ rest) ≡ size
      → length text + length more < size
      → Reads (crt.tcscat_s (text ++ 0 ∷ rest) size (more ++ 0 ∷ rest')) (text ++ more)
        × (length (crt.tcscat_s (text ++ 0 ∷ rest) size (more ++ 0 ∷ rest')) ≡ size)
  pub narrow :
      (dest : List ℕ) (size : ℕ) (text rest : List ℕ)
      → IsAscii text
      → length dest ≡ size
      → length text < size
      → Reads (crt.wcstombs_s dest size (text ++ 0 ∷ rest) (length text)) text
        × (length (crt.wcstombs_s dest size (text ++ 0 ∷ rest) (length text)) ≡ size)
  pub widen :
      (dest : List ℕ) (size : ℕ) (text rest : List ℕ)
      → IsAscii text
      → length dest ≡ size
      → length text < size
      → Reads (crt.mbstowcs_s dest size (text ++ 0 ∷ rest) (length text)) text
        × (length (crt.mbstowcs_s dest size (text ++ 0 ∷ rest) (length text)) ≡ size)
  pub print_plain :
      (size : ℕ) (text rest : List ℕ)
      → IsPlain text
      → length text < size
      → crt.vstprintf_s size (text ++ 0 ∷ rest) [] ≡ some text
  pub print_too_long :
      (size : ℕ) (text rest : List ℕ)
      → IsPlain text
      → size ≤ length text
      → crt.vstprintf_s size (text ++ 0 ∷ rest) [] ≡ none
  pub print_string :
      (size : ℕ) (before after text rest rest' : List ℕ)
      → IsPlain before
      → IsPlain after
      → IsText text
      → length before + (length text + length after) < size
      → crt.vstprintf_s size
          (before ++ b'%' ∷ b's' ∷ (after ++ 0 ∷ rest'))
          ((text ++ 0 ∷ rest) ∷ [])
        ≡ some (before ++ (text ++ after))
  pub print_string_too_long :
      (size : ℕ) (before after text rest rest' : List ℕ)
      → IsPlain before
      → IsPlain after
      → IsText text
      → size ≤ length before + (length text + length after)
      → crt.vstprintf_s size
          (before ++ b'%' ∷ b's' ∷ (after ++ 0 ∷ rest'))
          ((text ++ 0 ∷ rest) ∷ [])
        ≡ none

-- Conversion to `UINT`.
abbrev pub u32 : ℕ → ℕ
u32 n = n % 2 ^ 32

module _ (crt : Crt) (garbage : ℕ → ℕ) where
  -- In a build with _UNICODE.
  abbrev pub ascii_of_wide : List ℕ → List ℕ
  ascii_of_wide input =
      let str_len = u32 (crt.tcslen input) in
      crt.wcstombs_s (new_bytes garbage (str_len + 1)) (str_len + 1) input str_len

  abbrev pub wide_of_ascii : List ℕ → List ℕ
  wide_of_ascii input =
      let str_len = u32 (crt.tcslen input) in
      crt.mbstowcs_s (new_bytes garbage (str_len + 1)) (str_len + 1) input str_len

  -- In a build without it.
  abbrev pub ascii_of_tchar : List ℕ → List ℕ
  ascii_of_tchar input = input

  abbrev pub tchar_of_ascii : List ℕ → List ℕ
  tchar_of_ascii input = input

  unfoldable pub create_ascii_string : Bool → List ℕ → List ℕ
  create_ascii_string unicode input = if unicode then ascii_of_wide input else ascii_of_tchar input

  unfoldable pub create_tchar_string : Bool → List ℕ → List ℕ
  create_tchar_string unicode input = if unicode then wide_of_ascii input else tchar_of_ascii input

module _ (crt : Crt) (garbage : ℕ → ℕ) where
  -- A directory and a name behind it, in a new buffer that is just large enough.
  unfoldable pub join_path : List ℕ → List ℕ → List ℕ
  join_path dir name =
      let size = u32 (crt.tcslen dir + crt.tcslen name + 1) in
      crt.tcscat_s (crt.tcscpy_s (new_bytes garbage size) size dir) size name

abbrev pub script_dir : List ℕ
script_dir = b'.' ∷ b'.' ∷ b'/' ∷ b's' ∷ b'c' ∷ b'r' ∷ b'i' ∷ b'p' ∷ b't' ∷ b's' ∷ b'/' ∷ 0 ∷ []

abbrev pub asm_prg_dir : List ℕ
asm_prg_dir = b'.' ∷ b'.' ∷ b'/' ∷ b'a' ∷ b's' ∷ b'm' ∷ b'/' ∷ b'p' ∷ b'r' ∷ b'g' ∷ b'/' ∷ 0 ∷ []

abbrev pub script_file_filter : List ℕ
script_file_filter = b'*' ∷ b'.' ∷ b'l' ∷ b'u' ∷ b'a' ∷ 0 ∷ []

-- The length of the buffer of `TestScriptDlgAppendOutput`.
abbrev pub tmp_buf_size : ℕ
tmp_buf_size = 1024

module _ (crt : Crt) (garbage : ℕ → ℕ) where
  -- The filter of `TestScriptDlgInit`.
  abbrev pub script_path_filter : List ℕ
  script_path_filter = join_path crt garbage script_dir script_file_filter

  -- The path of `LuaLoadAsm`, of the string that Lua gives.
  abbrev pub asm_file_path : Bool → List ℕ → List ℕ
  asm_file_path unicode lua_string =
      join_path crt garbage asm_prg_dir (create_tchar_string crt garbage unicode lua_string)

-- A build, of a debug or a release, with the dialog handle null or not.
module _ (crt : Crt) (garbage : ℕ → ℕ) (debug has_dlg : Bool) where
  -- What is put at the end of the output box; `none` where the program ends, in a debug build also where
  -- `assert(m_hWndDlg)` fails.
  abbrev pub append_output : List ℕ → List (List ℕ) → Option (List ℕ)
  append_output fmt args =
      if debug && not has_dlg then none else crt.vstprintf_s tmp_buf_size fmt args

  -- `ScriptMgr::LuaPrint`: the texts that are shown. What Lua answers is whether the argument is a
  -- string, and the string.
  unfoldable pub lua_print : Bool → Bool → List ℕ → Option (List (List ℕ))
  lua_print unicode is_string lua_string =
      if not is_string then (if debug then none else some []) else (do
        text ← append_output (create_tchar_string crt garbage unicode lua_string) []
        some (text ∷ []))
