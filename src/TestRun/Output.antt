-- ===== src/TestRun/Output.antt =====
-- What one script shows in the output of the test script dialog: `ScriptMgr::TestScriptDlgAppendOutput`
-- of sw/src/scriptmgrdlg.cpp, `ScriptMgr::LuaPrint` and `ScriptMgr::ExecuteScript` of
-- sw/src/scriptmgr.cpp, with a C library that keeps its documentation and a dialog handle that is set.
use fpga_nes.Prelude.{
  ℕ, ◌%◌, ◌^◌, ◌<◌, ◌≡◌, refl, ap, ◌∙◌, Bool, true, false, Option, none, some, List, [], ◌∷◌, ◌++◌,
  arith, length, All, inl, inr, Bool-cases, if◌then◌else◌, ltb, ◌==◌, not, ◌&&◌, sym, append-nil,
}
use fpga_nes.Strings.{
  Crt, IsCrt, IsText, IsAscii, IsPlain, create_tchar_string, append_output, lua_print,
}
use fpga_nes.Strings.Convert.{create_tchar_string_lem}
use fpga_nes.TestRun.{
  LuaValue, Script, script_result_error, DialogEvent, do_file, output, outputs, c_string,
  start_line, start_line_end, start_test_fmt, result_line, new_line, end_test_fmt, lua_error_fmt,
  run_prints, execute_script,
}

-- A text that a script may print: a string in ASCII without a percent sign, shorter than the buffer.
pub record CanPrint (v : LuaValue) : Type 0 where
  pub string : v.is_string ≡ true
  pub ascii : IsAscii v.text
  pub plain : IsPlain v.text
  pub short : length v.text < 1024

-- The text of an error, as it is shown, fits the buffer.
pub record CanShow (error : List ℕ) : Type 0 where
  pub ascii : IsAscii error
  pub short : length error < 1022

-- The texts that a script prints, and that of its error.
abbrev pub printed_texts : List LuaValue → List (List ℕ)
printed_texts [] = []
printed_texts (v ∷ values) = v.text ∷ printed_texts values

abbrev pub error_texts : Script → List (List ℕ)
error_texts s = if s.finished then [] else (s.error ++ new_line) ∷ []

-- The result of a script: what it returned, or that of an error.
abbrev pub result_of_script : Script → ℕ
result_of_script s = if s.finished then s.returned % 2 ^ 32 else script_result_error

-- What `ExecuteScript` shows.
abbrev pub shown_by : Script → List DialogEvent
shown_by s = do_file s.name ∷ (outputs (printed_texts s.prints) ++ outputs (error_texts s))

pub IsAscii-IsText : (text : List ℕ) → IsAscii text → IsText text
IsAscii-IsText [] h = tt
IsAscii-IsText (ch ∷ text) ((low, high), h) = (λ e. omega (arith, e), IsAscii-IsText text h)

abbrev is_plain : List ℕ → Bool
is_plain [] = true
is_plain (ch ∷ text) =
    let rest = is_plain text in if ltb 0 ch && not (ch == b'%') then rest else false

is_plain-IsPlain : (text : List ℕ) → is_plain text ≡ true → IsPlain text
is_plain-IsPlain [] h = tt
is_plain-IsPlain (ch ∷ text) h = elim (Bool-cases (ltb 0 ch && not (ch == b'%'))) [
  | inl ok ↦ ((ground (arith, ok), ground (arith, ok)), is_plain-IsPlain text (rw ok at h))
  | inr bad ↦ absurd (cc (rw bad at h))
]

pub new_line-IsPlain : IsPlain new_line
new_line-IsPlain = is_plain-IsPlain new_line refl

on_dialog :
    (debug : Bool) (shown : Option (List ℕ)) → (if debug && not true then none else shown) ≡ shown
on_dialog true shown = refl
on_dialog false shown = refl

pub outputs-append : (xs ys : List (List ℕ)) → outputs (xs ++ ys) ≡ outputs xs ++ outputs ys
outputs-append [] ys = refl
outputs-append (x ∷ xs) ys = ap (λ l. output x ∷ l) (outputs-append xs ys)

-- The lines around a script.
abbrev pub opening_line : List ℕ → List ℕ
opening_line name = start_line ++ (name ++ start_line_end)

abbrev pub closing_line : List ℕ → List ℕ
closing_line verdict = result_line ++ (verdict ++ (new_line ++ new_line))

module _ (crt : Crt) (law : IsCrt crt) (garbage : ℕ → ℕ) (debug unicode : Bool) where
  pub opening-shown :
      (name : List ℕ)
      → IsText name
      → length name < 990
      → append_output crt garbage debug true start_test_fmt (c_string name ∷ [])
        ≡ some (opening_line name)
  opening-shown name set short =
      let before : length start_line ≡ 7 = refl in
      let after : length start_line_end ≡ 27 = refl in
      on_dialog debug _
      ∙ law.print_string 1024 start_line start_line_end name [] []
          (is_plain-IsPlain start_line refl) (is_plain-IsPlain start_line_end refl) set
          (omega (arith, before, after))

  pub closing-shown :
      (verdict : List ℕ)
      → IsText verdict
      → length verdict < 100
      → append_output crt garbage debug true end_test_fmt (c_string verdict ∷ [])
        ≡ some (closing_line verdict)
  closing-shown verdict set short =
      let before : length result_line ≡ 15 = refl in
      let after : length (new_line ++ new_line) ≡ 4 = refl in
      on_dialog debug _
      ∙ law.print_string 1024 result_line (new_line ++ new_line) verdict [] []
          (is_plain-IsPlain result_line refl) (is_plain-IsPlain (new_line ++ new_line) refl) set
          (omega (arith, before, after))

  print-shown :
      (v : LuaValue)
      → CanPrint v
      → lua_print crt garbage debug true unicode v.is_string (c_string v.text) ≡ some (v.text ∷ [])
  unfolding lua_print
  print-shown v h =
      let (rest, made) =
        create_tchar_string_lem crt law garbage unicode v.text [] h.ascii
          (omega (arith, h.short)) in
      rw (h.string, made)
        (rw (on_dialog debug (crt.vstprintf_s 1024 (v.text ++ 0 ∷ rest) []))
          (rw (law.print_plain 1024 v.text rest h.plain h.short) refl))

  pub run_prints-shown :
      (values : List LuaValue)
      → All CanPrint values
      → run_prints crt garbage debug true unicode values ≡ some (outputs (printed_texts values))
  unfolding run_prints
  run_prints-shown [] h = refl
  run_prints-shown (v ∷ values) (can, h) =
      rw (print-shown v can) (rw (run_prints-shown values h) refl)

  error-shown :
      (error : List ℕ)
      → CanShow error
      → append_output crt garbage debug true lua_error_fmt
          (create_tchar_string crt garbage unicode (c_string error) ∷ [])
        ≡ some (error ++ new_line)
  error-shown error h =
      let (rest, made) =
        create_tchar_string_lem crt law garbage unicode error [] h.ascii (omega (arith, h.short)) in
      let after : length new_line ≡ 2 = refl in
      rw made (
        on_dialog debug _
        ∙ law.print_string 1024 [] new_line error rest [] tt (is_plain-IsPlain new_line refl)
            (IsAscii-IsText error h.ascii) (omega (arith, after, h.short)))

  -- A script whose texts fit: its result, and what it shows.
  pub execute_script_lem :
      (s : Script)
      → All CanPrint s.prints
      → (s.finished ≡ false → CanShow s.error)
      → execute_script crt garbage debug true unicode s ≡ some (result_of_script s, shown_by s)
  unfolding execute_script
  execute_script_lem s prints error =
      rw (run_prints-shown s.prints prints) (elim (Bool-cases s.finished) [
        | inl done ↦ rw done (
            ap
              (λ (l : List DialogEvent).
                let outcome : Option (ℕ × List DialogEvent) =
                  some (s.returned % 2 ^ 32, do_file s.name ∷ l) in
                outcome)
              (sym (append-nil (outputs (printed_texts s.prints)))))
        | inr failed ↦ rw failed (rw (error-shown s.error (error failed)) refl)
      ])
