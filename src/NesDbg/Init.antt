-- ===== src/NesDbg/Init.antt =====
-- `NesDbg::Init` of sw/src/nesdbg.cpp: when it succeeds, and which objects it leaves.
use fpga_nes.Prelude.{ℕ, ◌≤◌, ◌≡◌, refl, ap, arith, Bool, true, false, none, some, List, length}
use fpga_nes.SerialComm.{Handle, Os, Call, com5, init}
use fpga_nes.SerialComm.Connect.{is_open}
use fpga_nes.NesDbg.{
  Windows, WindowMsg, NesDbg, AppCall, unset, valid, new_nes_dbg_object, nes_dbg_init,
}
use fpga_nes.NesDbg.Resources.{handle_if, init-port}
use fpga_nes.NesDbg.Released.{is_connected, can_init, windows_of}

-- An object with all that the dialogs use.
abbrev pub ready_with : Handle → NesDbg
ready_with handle = record {
  font_courier_new = true;
  serial_comm = some handle;
  script_mgr = some (record { lua_vm = valid; hwnd_dlg = unset });
}

abbrev pub ready_object : NesDbg
ready_object = ready_with com5

module _ (garbage : ℕ → ℕ) (behind : List ℕ) where
  abbrev InitRun : Windows → Type 0
  InitRun win =
      (d : NesDbg) × (log : List AppCall) × (nes_dbg_init false garbage behind win
          new_nes_dbg_object
        ≡ some (can_init win garbage, d, log))
      × (can_init win garbage ≡ true → d ≡ ready_object)
      × (can_init win garbage ≡ false → d.script_mgr ≡ none)

  link_init :
      (rc cw nn nm lo same : Bool) (os : Os) (ms : List WindowMsg) (qp : ℕ) (calls : List Call)
      → is_connected os garbage ≡ same
      → (same ≡ true → handle_if (is_open os.create) ≡ com5)
      → init false os garbage behind ≡ some (same, handle_if (is_open os.create), calls)
      → InitRun (windows_of rc cw true nn true nm lo os ms qp)
  unfolding nes_dbg_init
  link_init rc cw nn nm lo false os ms qp calls same at_com ran =
      rw same (rw ran (_, _, refl, λ e. absurd (cc), λ e. refl))
  link_init rc cw nn false lo true os ms qp calls same at_com ran =
      rw same (rw ran (_, _, refl, λ e. absurd (cc), λ e. refl))
  link_init rc cw nn true false true os ms qp calls same at_com ran =
      rw same (rw ran (_, _, refl, λ e. absurd (cc), λ e. refl))
  link_init rc cw nn true true true os ms qp calls same at_com ran =
      rw same (rw ran (_, _, refl, λ e. ap ready_with (at_com refl), λ e. absurd (cc)))

  init_run :
      (rc cw cf nn ns nm lo : Bool) (os : Os) (ms : List WindowMsg) (qp : ℕ)
      → length (os.read 4).1 ≤ 4
      → InitRun (windows_of rc cw cf nn ns nm lo os ms qp)
  unfolding nes_dbg_init
  init_run rc cw false nn ns nm lo os ms qp h = (_, _, refl, λ e. absurd (cc), λ e. refl)
  init_run rc cw true nn false nm lo os ms qp h = (_, _, refl, λ e. absurd (cc), λ e. refl)
  init_run rc cw true nn true nm lo os ms qp h =
      let (calls, ran, at_port) = init-port garbage behind os h in
      let at_com : is_connected os garbage ≡ true → handle_if (is_open os.create) ≡ com5 =
        λ e. ground arith in
      link_init rc cw nn nm lo (is_connected os garbage) os ms qp calls refl at_com ran

-- In a release build, with a serial driver that never returns more bytes than it was asked for: `Init` of
-- a new NesDbg comes back; it returns TRUE exactly if the font and both objects were created, the FPGA
-- answered on the configured port and Lua opened; it then leaves the font, the connection on the opened
-- port and the script manager with its Lua machine, whose dialog handle is still unset; otherwise it
-- leaves no script manager.
pub nes_dbg_init_lem :
    (garbage : ℕ → ℕ) (behind : List ℕ) (win : Windows)
    → length (win.os.read 4).1 ≤ 4
    → (d : NesDbg) × (log : List AppCall) × (nes_dbg_init false garbage behind win
          new_nes_dbg_object
        ≡ some (can_init win garbage, d, log))
      × (can_init win garbage ≡ true → d ≡ ready_object)
      × (can_init win garbage ≡ false → d.script_mgr ≡ none)
nes_dbg_init_lem garbage behind win h =
    init_run garbage behind win.register_class win.create_window win.create_font win.new_nes_dbg
      win.new_serial_comm win.new_script_mgr win.lua_open win.os win.messages win.quit_param h
