-- ===== src/TestRun/TooLong.antt =====
-- A script of sw/src/scriptmgr.cpp that shows a text longer than the buffer of
-- `ScriptMgr::TestScriptDlgAppendOutput` of sw/src/scriptmgrdlg.cpp.
use fpga_nes.Prelude.{
  ℕ, ◌+◌, ◌^◌, ◌≤◌, ◌<◌, ◌≡◌, refl, Bool, true, false, not, ◌&&◌, Option, none, List, [], ◌∷◌, ◌++◌,
  arith, length, if◌then◌else◌, ◌⊎◌, inl, inr,
}
use fpga_nes.Strings.{Crt, IsCrt, IsAscii, IsPlain, create_tchar_string, append_output, lua_print}
use fpga_nes.Strings.Convert.{create_tchar_string_lem}
use fpga_nes.TestRun.{
  LuaValue, Script, new_line, c_string, start_test_fmt, lua_error_fmt, set_progress, run_prints,
  execute_script, run_scripts, test_script_dlg_run,
}
use fpga_nes.TestRun.Output.{IsAscii-IsText, new_line-IsPlain}
use fpga_nes.TestRun.Unknown.{EndsRun, stops, run-ends}

-- An ASCII string without a percent sign that fills the buffer, of a length that a string can have.
pub record IsLongPrint (v : LuaValue) : Type 0 where
  pub string : v.is_string ≡ true
  pub ascii : IsAscii v.text
  pub plain : IsPlain v.text
  pub long : 1024 ≤ length v.text
  pub real : length v.text + 1 < 2 ^ 32

-- An error with an ASCII text that fills the buffer with the end of its line.
pub record IsLongError (s : Script) : Type 0 where
  pub failed : s.finished ≡ false
  pub ascii : IsAscii s.error
  pub long : 1022 ≤ length s.error
  pub real : length s.error + 1 < 2 ^ 32

-- Among the strings that a script prints there is a long one.
abbrev pub HasLongPrint : List LuaValue → Type 0
HasLongPrint [] = ⊥
HasLongPrint (v ∷ values) = IsLongPrint v ⊎ HasLongPrint values

abbrev pub ShowsTooMuch : Script → Type 0
ShowsTooMuch s = HasLongPrint s.prints ⊎ IsLongError s

never : (b : Bool) {shown : Option (List ℕ)} → shown ≡ none → (if b then none else shown) ≡ none
never true h = refl
never false h = h

module _ (crt : Crt) (law : IsCrt crt) (garbage : ℕ → ℕ) (debug has_dlg unicode : Bool) where
  print-ends :
      (v : LuaValue)
      → IsLongPrint v
      → lua_print crt garbage debug has_dlg unicode v.is_string (c_string v.text) ≡ none
  unfolding lua_print
  print-ends v h =
      let (rest, made) = create_tchar_string_lem crt law garbage unicode v.text [] h.ascii h.real in
      let ends =
        never (debug && not has_dlg) (law.print_too_long 1024 v.text rest h.plain h.long) in
      rw (h.string, made) (rw ends refl)

  prints-end :
      (values : List LuaValue)
      → HasLongPrint values
      → run_prints crt garbage debug has_dlg unicode values ≡ none
  unfolding run_prints
  prints-end [] h = absurd h
  prints-end (v ∷ values) (inl here) = rw (print-ends v here) refl
  prints-end (v ∷ values) (inr later) =
      stops (lua_print crt garbage debug has_dlg unicode v.is_string (c_string v.text))
        (λ texts. rw (prints-end values later) refl)

  error-ends :
      (s : Script)
      → IsLongError s
      → append_output crt garbage debug has_dlg lua_error_fmt
          (create_tchar_string crt garbage unicode (c_string s.error) ∷ [])
        ≡ none
  error-ends s h =
      let (rest, made) =
        create_tchar_string_lem crt law garbage unicode s.error [] h.ascii h.real in
      let after : length new_line ≡ 2 = refl in
      rw made (
        never (debug && not has_dlg) (
          law.print_string_too_long 1024 [] new_line s.error rest [] tt new_line-IsPlain
            (IsAscii-IsText s.error h.ascii) (omega (arith, after, h.long))))

  execute_script-ends :
      (s : Script) → ShowsTooMuch s → execute_script crt garbage debug has_dlg unicode s ≡ none
  unfolding execute_script
  execute_script-ends s (inl print) = rw (prints-end s.prints print) refl
  execute_script-ends s (inr error) =
      stops (run_prints crt garbage debug has_dlg unicode s.prints)
        (λ printed. rw error.failed (rw (error-ends s error) refl))

  too_much-ends : (s : Script) → ShowsTooMuch s → EndsRun crt garbage debug has_dlg unicode s
  unfolding run_scripts
  too_much-ends s h cnt i p f e after =
      stops (set_progress crt garbage debug has_dlg unicode i cnt) (λ shown.
        stops (append_output crt garbage debug has_dlg start_test_fmt (c_string s.name ∷ []))
          (λ opening. rw (execute_script-ends s h) refl))

-- With a C library that keeps its documentation, in any build: one of the selected scripts prints an
-- ASCII string of 1024 characters or more, without a percent sign, or fails in Lua with an ASCII text of
-- 1022 or more. The run does not come back: the program ends at that script at the latest, whichever
-- scripts stand before and behind it.
pub test_script_dlg_run-too_long :
    (crt : Crt) (garbage : ℕ → ℕ) (debug has_dlg unicode : Bool) (before : List Script)
    (long : Script) (after : List Script)
    → IsCrt crt
    → ShowsTooMuch long
    → test_script_dlg_run crt garbage debug has_dlg unicode (before ++ long ∷ after) ≡ none
test_script_dlg_run-too_long crt garbage debug has_dlg unicode before long after law h =
    run-ends crt garbage debug has_dlg unicode before long after
      (too_much-ends crt law garbage debug has_dlg unicode long h)
