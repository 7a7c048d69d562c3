-- ===== src/TestRun.antt =====
-- The "Run" button of the test script dialog: `ScriptMgr::TestScriptDlgRun` of
-- sw/src/scriptmgrdlg.cpp and `ScriptMgr::ExecuteScript` of sw/src/scriptmgr.cpp. What a script does in
-- Lua is part of the script: what it prints, and how it ends. What the dialog is told is the log. A run is
-- `none` where the code does not come back: a failed assertion of a debug build, an access outside a
-- table, or a text that does not fit the buffer of the output.
pub mod Output
pub mod Tally
pub mod Unknown
pub mod TooLong
pub mod Dialog
use fpga_nes.Prelude.{
  ℕ, zero, suc, ◌+◌, ◌%◌, ◌^◌, Bool, true, false, not, ◌&&◌, Option, none, some, List, [], ◌∷◌,
  ◌++◌, leb, ◌==◌, length, get_elem?, if◌then◌else◌, ◌>>=◌,
}
use fpga_nes.Strings.{Crt, create_tchar_string, append_output, lua_print}

-- The argument of a `print`: whether it is a string, and the string.
pub record LuaValue : Type 0 where
  pub is_string : Bool
  pub text : List ℕ

-- A selected script: its file name, what it prints, whether Lua ran it to its end, and the number that
-- it returned or the text of the error.
pub record Script : Type 0 where
  pub name : List ℕ
  pub prints : List LuaValue
  pub finished : Bool
  pub returned : ℕ
  pub error : List ℕ

-- The enum `ScriptResult`.
abbrev pub script_result_pass : ℕ
script_result_pass = 0

abbrev pub script_result_fail : ℕ
script_result_fail = 1

abbrev pub script_result_error : ℕ
script_result_error = 2

-- What the dialog is told, and the scripts that Lua is given.
pub data DialogEvent : Type 0 where
  no_tests : DialogEvent
  progress : ℕ → ℕ → DialogEvent
  results : ℕ → ℕ → ℕ → DialogEvent
  do_file : List ℕ → DialogEvent
  output : List ℕ → DialogEvent

-- A string with its 0.
abbrev pub c_string : List ℕ → List ℕ
c_string text = text ++ 0 ∷ []

abbrev pub equal_signs : ℕ → List ℕ
equal_signs zero = []
equal_signs (suc n) = b'=' ∷ equal_signs n

abbrev pub new_line : List ℕ
new_line = 13 ∷ 10 ∷ []

-- "====== " and " ========================", around the name of a script.
abbrev pub start_line : List ℕ
start_line = equal_signs 6 ++ b' ' ∷ []

abbrev pub start_line_end : List ℕ
start_line_end = b' ' ∷ (equal_signs 24 ++ new_line)

abbrev pub start_test_fmt : List ℕ
start_test_fmt = start_line ++ b'%' ∷ b's' ∷ (start_line_end ++ 0 ∷ [])

-- "====== Result: ", before a verdict.
abbrev pub result_line : List ℕ
result_line = equal_signs 6 ++ b' ' ∷ b'R' ∷ b'e' ∷ b's' ∷ b'u' ∷ b'l' ∷ b't' ∷ b':' ∷ b' ' ∷ []

abbrev pub end_test_fmt : List ℕ
end_test_fmt = result_line ++ b'%' ∷ b's' ∷ ((new_line ++ new_line) ++ 0 ∷ [])

abbrev pub pass_text : List ℕ
pass_text = b'P' ∷ b'A' ∷ b'S' ∷ b'S' ∷ []

abbrev pub fail_text : List ℕ
fail_text = b'F' ∷ b'A' ∷ b'I' ∷ b'L' ∷ []

abbrev pub error_text : List ℕ
error_text = b'E' ∷ b'R' ∷ b'R' ∷ b'O' ∷ b'R' ∷ []

abbrev pub script_result_str_tbl : List (List ℕ)
script_result_str_tbl = c_string pass_text ∷ c_string fail_text ∷ c_string error_text ∷ []

abbrev pub lua_error_fmt : List ℕ
lua_error_fmt = b'%' ∷ b's' ∷ (new_line ++ 0 ∷ [])

abbrev pub outputs : List (List ℕ) → List DialogEvent
outputs [] = []
outputs (text ∷ texts) = output text ∷ outputs texts

-- The tally that is shown.
abbrev pub set_results : ℕ → ℕ → ℕ → DialogEvent
set_results pass_cnt fail_cnt error_cnt = results pass_cnt fail_cnt error_cnt

module _ (crt : Crt) (garbage : ℕ → ℕ) (debug has_dlg unicode : Bool) where
  abbrev pub set_progress : ℕ → ℕ → Option DialogEvent
  set_progress tests_done test_cnt =
      if debug && not (has_dlg && leb tests_done test_cnt)
      then none
      else some (progress tests_done test_cnt)

  -- What a script prints while Lua runs it.
  pub run_prints : List LuaValue → Option (List DialogEvent)
  run_prints [] = some []
  run_prints (v ∷ values) = do
    texts ← lua_print crt garbage debug has_dlg unicode v.is_string (c_string v.text)
    later ← run_prints values
    some (outputs texts ++ later)

  -- The result, and what is shown: what the script prints and the text of an error.
  pub execute_script : Script → Option (ℕ × List DialogEvent)
  execute_script s = do
    printed ← run_prints s.prints
    if s.finished then some (s.returned % 2 ^ 32, do_file s.name ∷ printed) else (do
      text ←
          append_output crt garbage debug has_dlg lua_error_fmt
            (create_tchar_string crt garbage unicode (c_string s.error) ∷ [])
      some (script_result_error, do_file s.name ∷ (printed ++ output text ∷ [])))

  -- The loop over the scripts, from number `i` on, with the tally so far.
  pub run_scripts : ℕ → ℕ → ℕ → ℕ → ℕ → List Script → Option (List DialogEvent)
  run_scripts cnt i pass_cnt fail_cnt error_cnt [] = some []
  run_scripts cnt i pass_cnt fail_cnt error_cnt (s ∷ scripts) = do
    shown ← set_progress i cnt
    opening ← append_output crt garbage debug has_dlg start_test_fmt (c_string s.name ∷ [])
    (result, told) ← execute_script s
    verdict ← get_elem? script_result_str_tbl result
    closing ← append_output crt garbage debug has_dlg end_test_fmt (verdict ∷ [])
    let passed = result == script_result_pass
    let failed = not passed && result == script_result_fail
    let pass_cnt' = if passed then pass_cnt + 1 else pass_cnt
    let fail_cnt' = if failed then fail_cnt + 1 else fail_cnt
    let error_cnt' = if passed then error_cnt else if failed then error_cnt else error_cnt + 1
    rest ← run_scripts cnt (i + 1) pass_cnt' fail_cnt' error_cnt' scripts
    some (
        shown
        ∷ output opening
        ∷ (told ++ output closing ∷ set_results pass_cnt' fail_cnt' error_cnt' ∷ rest))

  unfoldable pub test_script_dlg_run : List Script → Option (List DialogEvent)
  test_script_dlg_run scripts =
      let cnt = length scripts in
      if cnt == 0 then some (no_tests ∷ []) else (do
        log ← run_scripts cnt 0 0 0 0 scripts
        shown ← set_progress cnt cnt
        some (set_results 0 0 0 ∷ (log ++ shown ∷ [])))
