-- ===== src/TestRun/Tally.antt =====
-- A run of the test scripts, `ScriptMgr::TestScriptDlgRun` of sw/src/scriptmgrdlg.cpp: its tally and
-- its output.
use fpga_nes.Prelude.{
  ℕ, zero, suc, ◌+◌, ◌≤◌, ◌<◌, ◌≡◌, refl, false, not, ◌&&◌, none, List, [], ◌∷◌, ◌++◌, arith, ◌==◌,
  length, get_elem?, All, if◌then◌else◌,
}
use fpga_nes.Strings.{IsText}
use fpga_nes.TestRun.{
  Script, script_result_pass, script_result_fail, DialogEvent, results, do_file, output, pass_text,
  fail_text, error_text, script_result_str_tbl,
}
use fpga_nes.TestRun.Output.{
  CanPrint, CanShow, printed_texts, error_texts, result_of_script, opening_line, closing_line,
}

-- How many scripts have a result.
abbrev pub count : ℕ → List Script → ℕ
count r [] = 0
count r (s ∷ scripts) = (if result_of_script s == r then 1 else 0) + count r scripts

abbrev pub names : List Script → List (List ℕ)
names [] = []
names (s ∷ scripts) = s.name ∷ names scripts

-- The texts of the output box: for each script a line with its name, what it prints, the text of its
-- error, and its verdict.
abbrev pub verdict_text : ℕ → List ℕ
verdict_text zero = pass_text
verdict_text (suc zero) = fail_text
verdict_text (suc (suc r)) = error_text

abbrev pub lines_of : Script → List (List ℕ)
lines_of s =
    opening_line s.name
    ∷ (printed_texts s.prints
        ++ (error_texts s ++ closing_line (verdict_text (result_of_script s)) ∷ []))

abbrev pub all_lines : List Script → List (List ℕ)
all_lines [] = []
all_lines (s ∷ scripts) = lines_of s ++ all_lines scripts

-- The scripts that Lua was given, in order, the output, and the last tally that was shown.
abbrev pub started_names : List DialogEvent → List (List ℕ)
started_names [] = []
started_names (do_file n ∷ log) = n ∷ started_names log
started_names (_ ∷ log) = started_names log

abbrev pub output_texts : List DialogEvent → List (List ℕ)
output_texts [] = []
output_texts (output text ∷ log) = text ∷ output_texts log
output_texts (_ ∷ log) = output_texts log

abbrev pub last_results : ℕ × ℕ × ℕ → List DialogEvent → ℕ × ℕ × ℕ
last_results tally [] = tally
last_results tally (results p f e ∷ log) = last_results (p, f, e) log
last_results tally (_ ∷ log) = last_results tally log

-- The texts of a script fit the buffer of the output, and it fails in Lua or returns 0, 1 or 2.
pub record Fits (s : Script) : Type 0 where
  pub name_set : IsText s.name
  pub name_short : length s.name < 990
  pub prints : All CanPrint s.prints
  pub error : s.finished ≡ false → CanShow s.error
  pub verdict : result_of_script s ≤ 2

pub no_text : (r : ℕ) → 2 < r → get_elem? script_result_str_tbl r ≡ none
no_text zero h = absurd (omega arith)
no_text (suc zero) h = absurd (omega arith)
no_text (suc (suc zero)) h = absurd (omega arith)
no_text (suc (suc (suc r))) h = refl

abbrev pass_after : ℕ → ℕ → ℕ
pass_after r p = if r == script_result_pass then p + 1 else p

abbrev fail_after : ℕ → ℕ → ℕ
fail_after r f = if not (r == script_result_pass) && r == script_result_fail then f + 1 else f

abbrev error_after : ℕ → ℕ → ℕ
error_after r e =
    if r == script_result_pass
    then e
    else if not (r == script_result_pass) && r == script_result_fail
    then e
    else e + 1
