-- ===== src/NesDbg.antt =====
-- The program as a whole: the class NesDbg of sw/src/nesdbg.cpp with its constructor, `Init` and its
-- destructor, those of the class ScriptMgr of sw/src/scriptmgr.cpp, and `WinMain` and `WndProc` of
-- sw/src/main.cpp. What Windows and Lua answer is the argument `Windows`; a run is the calls made, in
-- order. It is `none` where `SerialComm::Init` or the operation of a menu command does not come back.
pub mod Init
pub mod Resources
pub mod Released
use fpga_nes.Prelude.{
  ℕ, ◌%◌, ◌^◌, Bool, true, false, not, Option, none, some, List, [], ◌∷◌, ◌++◌, ◌==◌, if◌then◌else◌,
  ◌>>=◌,
}
use fpga_nes.SerialComm.{Handle, Call, Os, init, destroy}

-- A pointer or a handle of a class: not set yet, null, or something.
pub data Pointer : Type 0 where
  unset null_ptr valid : Pointer

-- The class ScriptMgr.
pub record ScriptMgr : Type 0 where
  pub lua_vm : Pointer
  pub hwnd_dlg : Pointer

-- The class NesDbg; an object that it does not have is a null pointer.
pub record NesDbg : Type 0 where
  pub font_courier_new : Bool
  pub serial_comm : Option Handle
  pub script_mgr : Option ScriptMgr

-- A message for the main window: a command with its `wParam`, and whether the operation that it starts
-- comes back; the end of the window; or another with what `DefWindowProc` answers to it.
pub data WindowMsg : Type 0 where
  wm_command : ℕ → Bool → WindowMsg
  wm_destroy : WindowMsg
  other_msg : ℕ → WindowMsg

-- What Windows answers: the success of each call, the messages that `GetMessage` returns, and the
-- `wParam` of the one that ends them.
pub record Windows : Type 0 where
  pub register_class : Bool
  pub create_window : Bool
  pub create_font : Bool
  pub new_nes_dbg : Bool
  pub new_serial_comm : Bool
  pub new_script_mgr : Bool
  pub lua_open : Bool
  pub os : Os
  pub messages : List WindowMsg
  pub quit_param : ℕ

-- The names that `ScriptMgr::Init` gives to Lua.
pub data LuaName : Type 0 where
  lua_echo lua_cpu_mem_rd lua_cpu_mem_wr lua_dbg_hlt lua_dbg_run lua_cpu_reg_rd lua_cpu_reg_wr
        lua_wait_for_hlt lua_load_asm lua_ppu_mem_rd lua_ppu_mem_wr :
      LuaName

pub data AppCall : Type 0 where
  register_class register_failed create_window window_failed show_window update_window : AppCall
  new_nes_dbg delete_nes_dbg create_font delete_font : AppCall
  new_serial_comm delete_serial_comm new_script_mgr delete_script_mgr : AppCall
  serial : Call → AppCall
  lua_open luaopen_base luaopen_math set_global_print lua_close : AppCall
  lua_register : List LuaName → AppCall
  post_close post_quit load_rom raw_debug_dlg test_script_dlg : AppCall
  def_window_proc : AppCall

abbrev pub serial_calls : List Call → List AppCall
serial_calls [] = []
serial_calls (c ∷ calls) = serial c ∷ serial_calls calls

-- The table of `ScriptMgr::Init`.
abbrev pub nes_dbg_lib : List LuaName
nes_dbg_lib =
    lua_echo ∷ lua_cpu_mem_rd ∷ lua_cpu_mem_wr ∷ lua_dbg_hlt ∷ lua_dbg_run ∷ lua_cpu_reg_rd
    ∷ lua_cpu_reg_wr ∷ lua_wait_for_hlt ∷ lua_load_asm ∷ lua_ppu_mem_rd ∷ lua_ppu_mem_wr ∷ []

-- `ScriptMgr::ScriptMgr` sets neither of the two.
abbrev pub new_script_mgr_object : ScriptMgr
new_script_mgr_object = record { lua_vm = unset; hwnd_dlg = unset }

abbrev pub script_mgr_init : Bool → ScriptMgr → Bool × ScriptMgr × List AppCall
script_mgr_init opens m =
    if opens
    then (
      true,
      record { lua_vm = valid; hwnd_dlg = m.hwnd_dlg },
      lua_open ∷ luaopen_base ∷ luaopen_math ∷ set_global_print ∷ lua_register nes_dbg_lib ∷ [],
    )
    else (false, record { lua_vm = null_ptr; hwnd_dlg = m.hwnd_dlg }, lua_open ∷ [])

-- `delete` of a ScriptMgr; `none` where it reads a pointer that was never set.
abbrev pub destroy_script_mgr : ScriptMgr → Option (List AppCall)
destroy_script_mgr m = elim m.lua_vm [
  | unset ↦ none
  | null_ptr ↦ some (delete_script_mgr ∷ [])
  | valid ↦ some (lua_close ∷ delete_script_mgr ∷ [])
]

abbrev pub destroy_serial_comm : Handle → List AppCall
destroy_serial_comm handle = serial_calls (destroy handle) ++ delete_serial_comm ∷ []

-- `NesDbg::NesDbg`
abbrev pub new_nes_dbg_object : NesDbg
new_nes_dbg_object = record { font_courier_new = false; serial_comm = none; script_mgr = none }

abbrev pub destroy_script_member : Option ScriptMgr → Option (List AppCall)
destroy_script_member none = some []
destroy_script_member (some m) = destroy_script_mgr m

abbrev pub destroy_serial_member : Option Handle → List AppCall
destroy_serial_member none = []
destroy_serial_member (some handle) = destroy_serial_comm handle

-- `delete` of a NesDbg.
abbrev pub destroy_nes_dbg : NesDbg → Option (List AppCall)
destroy_nes_dbg d = do
  script ← destroy_script_member d.script_mgr
  let font = if d.font_courier_new then delete_font ∷ [] else []
  some (font ++ (destroy_serial_member d.serial_comm ++ (script ++ delete_nes_dbg ∷ [])))

-- The commands of the menu.
abbrev pub idm_file_exit : ℕ
idm_file_exit = 40000

abbrev pub idm_tools_rawdebug : ℕ
idm_tools_rawdebug = 40001

abbrev pub idm_tools_testscripts : ℕ
idm_tools_testscripts = 40002

abbrev pub idm_file_loadrom : ℕ
idm_file_loadrom = 40003

abbrev pub launch_raw_dbg_dlg : AppCall
launch_raw_dbg_dlg = raw_debug_dlg

abbrev pub launch_test_script_dlg : AppCall
launch_test_script_dlg = test_script_dlg

-- `LoadRom` and both dialogs are components of their own; here each is one call, `none` where it does not
-- come back.
abbrev pub started : Bool → AppCall → Option (List AppCall)
started comes_back call = if comes_back then some (call ∷ []) else none

abbrev pub menu : ℕ → Bool → Option (List AppCall)
menu id comes_back =
    if id == idm_file_exit
    then some (post_close ∷ [])
    else if id == idm_file_loadrom
    then started comes_back load_rom
    else if id == idm_tools_rawdebug
    then started comes_back launch_raw_dbg_dlg
    else if id == idm_tools_testscripts
    then started comes_back launch_test_script_dlg
    else some []

-- What it returns, and what it calls.
abbrev pub wnd_proc : WindowMsg → Option (ℕ × List AppCall)
wnd_proc (wm_command w_param comes_back) = do
  calls ← menu (w_param % 2 ^ 16) comes_back
  some (0, calls)
wnd_proc wm_destroy = some (0, post_quit ∷ [])
wnd_proc (other_msg answer) = some (answer, def_window_proc ∷ [])

-- The loop over `GetMessage`.
abbrev pub message_loop : List WindowMsg → Option (List AppCall)
message_loop [] = some []
message_loop (msg ∷ messages) = do
  (answer, calls) ← wnd_proc msg
  later ← message_loop messages
  some (calls ++ later)

module _ (debug : Bool) (garbage : ℕ → ℕ) (behind_string : List ℕ) (win : Windows) where
  abbrev pub Stage : Type 0
  Stage = Bool × NesDbg × List AppCall

  -- The three stages of `NesDbg::Init`.
  abbrev pub font_stage : NesDbg → Stage
  font_stage d = (
    win.create_font,
    record {
      font_courier_new = win.create_font;
      serial_comm = d.serial_comm;
      script_mgr = d.script_mgr;
    },
    create_font ∷ [],
  )

  abbrev pub with_serial_comm : NesDbg → Option Handle → NesDbg
  with_serial_comm d s = record {
    font_courier_new = d.font_courier_new;
    serial_comm = s;
    script_mgr = d.script_mgr;
  }

  abbrev pub with_script_mgr : NesDbg → Option ScriptMgr → NesDbg
  with_script_mgr d m = record {
    font_courier_new = d.font_courier_new;
    serial_comm = d.serial_comm;
    script_mgr = m;
  }

  -- `none` for a null pointer.
  abbrev pub serial_made : NesDbg → List AppCall → Bool × Handle × List Call → Stage
  serial_made d log (ok, handle, calls) =
      if ok
      then (true, with_serial_comm d (some handle), log ++ new_serial_comm ∷ serial_calls calls)
      else (
        false,
        with_serial_comm d none,
        log ++ new_serial_comm ∷ (serial_calls calls ++ destroy_serial_comm handle),
      )

  abbrev pub serial_stage : Stage → Option Stage
  serial_stage (ret, d, log) =
      if not ret
      then some (false, d, log)
      else if not win.new_serial_comm
      then some (false, with_serial_comm d none, log ++ new_serial_comm ∷ [])
      else (do made ← init debug win.os garbage behind_string; some (serial_made d log made))

  abbrev pub script_stage : Stage → Option Stage
  script_stage (ret, d, log) =
      if not ret
      then some (false, d, log)
      else if not win.new_script_mgr
      then some (false, with_script_mgr d none, log ++ new_script_mgr ∷ [])
      else (do
        let (ok, m, calls) = script_mgr_init win.lua_open new_script_mgr_object
        destroyed ← destroy_script_mgr m
        some (
            if ok
            then (true, with_script_mgr d (some m), log ++ new_script_mgr ∷ calls)
            else (false, with_script_mgr d none, log ++ new_script_mgr ∷ (calls ++ destroyed))))

  unfoldable pub nes_dbg_init : NesDbg → Option Stage
  nes_dbg_init d = do s ← serial_stage (font_stage d); script_stage s

  -- The application with its window: what `WinMain` does from `new NesDbg` on.
  abbrev pub run_app : Option (ℕ × List AppCall)
  run_app = do
    (success, d, log) ← nes_dbg_init new_nes_dbg_object
    handled ← if success then message_loop win.messages else some []
    destroyed ← destroy_nes_dbg d
    some (
        if success
        then (
          win.quit_param % 2 ^ 32,
          new_nes_dbg ∷ (log ++ show_window ∷ update_window ∷ (handled ++ destroyed)),
        )
        else (0, new_nes_dbg ∷ (log ++ destroyed)))

  -- The exit code, and the calls.
  unfoldable pub win_main : Option (ℕ × List AppCall)
  win_main =
      if not win.register_class
      then some (0, register_class ∷ register_failed ∷ [])
      else if not win.create_window
      then some (0, register_class ∷ create_window ∷ window_failed ∷ [])
      else if not win.new_nes_dbg
      then some (0, register_class ∷ create_window ∷ new_nes_dbg ∷ [])
      else (do (ret, log) ← run_app; some (ret, register_class ∷ create_window ∷ log))
