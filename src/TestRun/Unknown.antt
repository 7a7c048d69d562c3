-- ===== src/TestRun/Unknown.antt =====
-- A script of sw/src/scriptmgr.cpp that returns a number that is no `ScriptResult`.
use fpga_nes.Prelude.{
  ℕ, ◌+◌, ◌<◌, ◌≡◌, refl, sym, ap, ◌∙◌, Option, Bool, false, some, none, List, [], ◌∷◌, ◌++◌, inl,
  inr, arith, length, length-append, get_elem?, ◌==◌, Option-cases, Bool-cases, ◌>>=◌,
}
use fpga_nes.Strings.{Crt, append_output, create_tchar_string}
use fpga_nes.TestRun.{
  Script, DialogEvent, start_test_fmt, end_test_fmt, lua_error_fmt, c_string, script_result_str_tbl,
  set_progress, run_prints, execute_script, run_scripts, test_script_dlg_run,
}
use fpga_nes.TestRun.Output.{result_of_script}
use fpga_nes.TestRun.Tally.{no_text}

-- A step that leads to no result whatever it returns.
pub stops {ℓ κ} :
    {A : Type ℓ} {B : Type κ} {f : A → Option B} (step : Option A)
    → ((a : A) → f a ≡ none)
    → (step >>= f) ≡ none
stops none h = refl
stops (some a) h = h a

-- The result of a script that came back.
result_in : Option (ℕ × List DialogEvent) → ℕ → ℕ
result_in none d = d
result_in (some (result, told)) d = result

module _ (crt : Crt) (garbage : ℕ → ℕ) (debug has_dlg unicode : Bool) where
  -- A script that ends the run, whatever follows.
  abbrev pub EndsRun : Script → Type 0
  EndsRun bad =
      (cnt i p f e : ℕ) (after : List Script)
      → run_scripts crt garbage debug has_dlg unicode cnt i p f e (bad ∷ after) ≡ none

  -- The scripts before it do not help.
  behind_others :
      (bad : Script)
      → EndsRun bad
      → (before after : List Script) (cnt i p f e : ℕ)
      → run_scripts crt garbage debug has_dlg unicode cnt i p f e (before ++ bad ∷ after) ≡ none
  unfolding run_scripts
  behind_others bad ends [] after cnt i p f e = ends cnt i p f e after
  behind_others bad ends (s ∷ before) after cnt i p f e =
      stops (set_progress crt garbage debug has_dlg unicode i cnt) (λ shown.
        stops (append_output crt garbage debug has_dlg start_test_fmt (c_string s.name ∷ []))
          (λ opening. stops (execute_script crt garbage debug has_dlg unicode s) (λ ran.
            stops (get_elem? script_result_str_tbl ran.0) (λ verdict.
              stops (append_output crt garbage debug has_dlg end_test_fmt (verdict ∷ []))
                (λ closing. rw (behind_others bad ends before after cnt (i + 1) _ _ _) refl)))))

  pub run-ends :
      (before : List Script) (bad : Script) (after : List Script)
      → EndsRun bad
      → test_script_dlg_run crt garbage debug has_dlg unicode (before ++ bad ∷ after) ≡ none
  unfolding test_script_dlg_run
  run-ends before bad after ends =
      let size = length-append before (bad ∷ after) in
      let some_selected : (length (before ++ bad ∷ after) == 0) ≡ false = ground (arith, size) in
      rw some_selected (rw (behind_others bad ends before after _ 0 0 0 0) refl)

  -- Where `ExecuteScript` comes back, it returns the result of the script.
  result_is :
      (s : Script) (result : ℕ) (told : List DialogEvent)
      → execute_script crt garbage debug has_dlg unicode s ≡ some (result, told)
      → result ≡ result_of_script s
  unfolding execute_script result_in
  result_is s result told came =
      elim (Option-cases (run_prints crt garbage debug has_dlg unicode s.prints)) [
        | inl stop ↦ absurd (cc (rw stop at came))
        | inr (printed, ok) ↦ elim (Bool-cases s.finished) [
          | inl done ↦ rw done (ap (λ o. result_in o 0) (sym (rw (ok, done) at came)))
          | inr failed ↦
              rw failed
                (elim (Option-cases (
                  append_output crt garbage debug has_dlg lua_error_fmt
                    (create_tchar_string crt garbage unicode (c_string s.error) ∷ []))) [
                      | inl stop ↦ absurd (cc (rw (ok, failed, stop) at came))
                      | inr (text, shown) ↦
                          ap (λ o. result_in o 0) (sym (rw (ok, failed, shown) at came))
                    ])
        ]
      ]

  unknown-ends : (bad : Script) → 2 < result_of_script bad → EndsRun bad
  unfolding run_scripts
  unknown-ends bad h cnt i p f e after =
      stops (set_progress crt garbage debug has_dlg unicode i cnt) (λ shown.
        stops (append_output crt garbage debug has_dlg start_test_fmt (c_string bad.name ∷ []))
          (λ opening. elim (Option-cases (execute_script crt garbage debug has_dlg unicode bad)) [
            | inl stop ↦ rw stop refl
            | inr ((result, told), came) ↦
                let outside : get_elem? script_result_str_tbl result ≡ none =
                  ap (get_elem? script_result_str_tbl) (result_is bad result told came)
                  ∙ no_text (result_of_script bad) h in
                rw came (rw outside refl)
          ]))

-- One of the selected scripts returns a number above 2: the run reads behind the end of the table of
-- verdicts, or the program has ended before, whatever the C library does, in a debug or a release build.
pub test_script_dlg_run-unknown :
    (crt : Crt) (garbage : ℕ → ℕ) (debug has_dlg unicode : Bool) (before : List Script)
    (bad : Script) (after : List Script)
    → 2 < result_of_script bad
    → test_script_dlg_run crt garbage debug has_dlg unicode (before ++ bad ∷ after) ≡ none
test_script_dlg_run-unknown crt garbage debug has_dlg unicode before bad after h =
    run-ends crt garbage debug has_dlg unicode before bad after
      (unknown-ends crt garbage debug has_dlg unicode bad h)
