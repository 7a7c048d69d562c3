-- ===== src/TestRun/Dialog.antt =====
-- The test script dialog, `ScriptMgr::TestScriptDlgProc` and `ScriptMgr::TestScriptDlgInit` of
-- sw/src/scriptmgrdlg.cpp: its messages, and a session of it. The member m_hWndDlg of the script manager
-- is set by the first message, and by no constructor.
use fpga_nes.Prelude.{
  ℕ, ◌%◌, ◌^◌, ◌≡◌, arith, ◌≢◌, Bool, true, false, Option, some, none, List, [], ◌∷◌, ◌++◌, All,
  ◌==◌, if◌then◌else◌, ◌>>=◌,
}
use fpga_nes.NesDbg.{Pointer, unset, null_ptr, valid, ScriptMgr}
use fpga_nes.Strings.{Crt, script_path_filter}
use fpga_nes.TestRun.{Script, DialogEvent, test_script_dlg_run}
use fpga_nes.TestRun.Tally.{Fits, started_names, names, output_texts, all_lines}

abbrev pub idc_testscripts_run : ℕ
idc_testscripts_run = 40013

abbrev pub idc_testscripts_clear : ℕ
idc_testscripts_clear = 40027

abbrev pub idc_testscripts_done : ℕ
idc_testscripts_done = 40014

-- A message, with the scripts that are selected when it comes.
pub data TestMsg : Type 0 where
  init_dialog other_msg : TestMsg
  command : ℕ → List Script → TestMsg

-- What the dialog is told: a filter for its list of files, the events of a run, and the rest.
pub data TestDlgEvent : Type 0 where
  list_files : List ℕ → TestDlgEvent
  ran : List DialogEvent → TestDlgEvent
  clear_output : TestDlgEvent
  end_dialog : ℕ → TestDlgEvent

-- `assert(m_hWndDlg)`; `none` too where the member was never set.
abbrev pub assert_dlg : Bool → Pointer → Option (Unit {0})
assert_dlg debug unset = none
assert_dlg debug null_ptr = if debug then none else some tt
assert_dlg debug valid = some tt

abbrev pub has_dlg : Pointer → Bool
has_dlg valid = true
has_dlg _ = false

abbrev pub with_dlg : Pointer → ScriptMgr → ScriptMgr
with_dlg p m = record { lua_vm = m.lua_vm; hwnd_dlg = p }

module _ (debug unicode : Bool) (crt : Crt) (garbage : ℕ → ℕ) (idcancel : ℕ) where
  abbrev pub test_script_dlg_init : ScriptMgr → Option (List TestDlgEvent)
  test_script_dlg_init m = do
    _ ← assert_dlg debug m.hwnd_dlg
    some (list_files (script_path_filter crt garbage) ∷ [])

  abbrev pub on_run : List Script → ScriptMgr → Option (Bool × List TestDlgEvent × ScriptMgr)
  on_run scripts m = do
    _ ← assert_dlg debug m.hwnd_dlg
    log ← test_script_dlg_run crt garbage debug (has_dlg m.hwnd_dlg) unicode scripts
    some (true, ran log ∷ [], m)

  -- Whether the message was handled, and what it caused.
  unfoldable pub test_script_dlg_proc :
      TestMsg → ScriptMgr → Option (Bool × List TestDlgEvent × ScriptMgr)
  test_script_dlg_proc init_dialog m = do
    told ← test_script_dlg_init (with_dlg valid m)
    some (true, told, with_dlg valid m)
  test_script_dlg_proc (command w_param scripts) m =
      let id = w_param % 2 ^ 16 in
      if id == idc_testscripts_run
      then on_run scripts m
      else if id == idc_testscripts_clear
      then some (true, clear_output ∷ [], m)
      else if id == idc_testscripts_done
      then some (true, end_dialog w_param ∷ [], with_dlg null_ptr m)
      else if id == idcancel
      then some (true, end_dialog w_param ∷ [], with_dlg null_ptr m)
      else some (true, [], m)
  test_script_dlg_proc other_msg m = some (false, [], m)

  -- The messages of a session, in order.
  unfoldable pub test_session : List TestMsg → ScriptMgr → Option (List TestDlgEvent × ScriptMgr)
  test_session [] m = some ([], m)
  test_session (msg ∷ msgs) m = do
    (handled, told, m') ← test_script_dlg_proc msg m
    (later, m'') ← test_session msgs m'
    some (told ++ later, m'')

-- The user runs one selection of scripts after the other.
abbrev pub runs : List (List Script) → List TestMsg
runs [] = []
runs (scripts ∷ selections) = command idc_testscripts_run scripts ∷ runs selections

-- What a dialog is told of runs with these logs.
abbrev pub told_of : List (List DialogEvent) → List TestDlgEvent
told_of [] = []
told_of (log ∷ logs) = ran log ∷ told_of logs

-- The scripts that each run started, and those that were selected for it.
abbrev pub all_started : List (List DialogEvent) → List (List (List ℕ))
all_started [] = []
all_started (log ∷ logs) = started_names log ∷ all_started logs

abbrev pub all_output : List (List DialogEvent) → List (List (List ℕ))
all_output [] = []
all_output (log ∷ logs) = output_texts log ∷ all_output logs

abbrev pub lines_of_all : List (List Script) → List (List (List ℕ))
lines_of_all [] = []
lines_of_all (scripts ∷ selections) = all_lines scripts ∷ lines_of_all selections

abbrev pub all_names : List (List Script) → List (List (List ℕ))
all_names [] = []
all_names (scripts ∷ selections) = names scripts ∷ all_names selections

-- The scripts of every run show texts that fit, and return what is a result.
abbrev pub AllFit : List (List Script) → Type 0
AllFit = All (All Fits)

-- A command that is none of the dialog's buttons: the code returns TRUE, that it was handled, and does
-- nothing, where the procedure of the raw debug dialog returns FALSE.
pub test_script_dlg_proc-unknown :
    (debug unicode : Bool) (crt : Crt) (garbage : ℕ → ℕ) (idcancel : ℕ) (m : ScriptMgr)
    (w_param : ℕ) (scripts : List Script)
    → w_param % 2 ^ 16 ≢ idc_testscripts_run
    → w_param % 2 ^ 16 ≢ idc_testscripts_clear
    → w_param % 2 ^ 16 ≢ idc_testscripts_done
    → w_param % 2 ^ 16 ≢ idcancel
    → test_script_dlg_proc debug unicode crt garbage idcancel (command w_param scripts) m
      ≡ some (true, [], m)
unfolding test_script_dlg_proc
test_script_dlg_proc-unknown debug unicode crt garbage idcancel m w_param scripts a b c d =
    ground arith
