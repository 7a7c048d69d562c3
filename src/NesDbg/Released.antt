-- ===== src/NesDbg/Released.antt =====
-- A whole run of `WinMain` of sw/src/main.cpp: its result, and that all it acquires is released.
use fpga_nes.Prelude.{
  ℕ, ◌%◌, ◌^◌, ◌≤◌, ◌≡◌, refl, ◌∙◌, Bool, true, false, not, All, ◌&&◌, Option, none, some, List,
  ◌++◌, length, if◌then◌else◌,
}
use fpga_nes.SerialComm.{Os, Call}
use fpga_nes.SerialComm.Connect.{is_open, is_configured, answer, equal}
use fpga_nes.SerialComm.{init_string, init}
use fpga_nes.NesDbg.{Windows, WindowMsg, AppCall, serial_calls, nes_dbg_init, run_app, win_main}
use fpga_nes.NesDbg.Resources.{
  Resource, font, serial_object, port, script_object, lua_vm, debugger, tracks, is_granted,
  handle_if, init-port, past_serial, past_port, message_loop-IsNeutral, ComesBack, port_destroyed,
  object_destroyed, others_destroyed,
}

every :
    (P : Resource → Type 0)
    → P font
    → P serial_object
    → P port
    → P script_object
    → P lua_vm
    → P debugger
    → (r : Resource) → P r
every P a b c d e f font = a
every P a b c d e f serial_object = b
every P a b c d e f port = c
every P a b c d e f script_object = d
every P a b c d e f lua_vm = e
every P a b c d e f debugger = f

-- The serial port was opened and configured, and the FPGA answered its echo.
abbrev pub is_connected : Os → (ℕ → ℕ) → Bool
is_connected os garbage = is_configured os && equal init_string (answer os garbage)

-- `NesDbg::Init` succeeds.
abbrev pub can_init : Windows → (ℕ → ℕ) → Bool
can_init win garbage =
    win.create_font
    && win.new_serial_comm
    && is_connected win.os garbage
    && win.new_script_mgr
    && win.lua_open

-- The program gets as far as its message loop.
abbrev pub can_start : Windows → (ℕ → ℕ) → Bool
can_start win garbage =
    win.register_class && win.create_window && win.new_nes_dbg && can_init win garbage

-- The program gets as far as opening the port.
abbrev pub tries_port : Windows → Bool
tries_port win =
    win.register_class && win.create_window && win.new_nes_dbg && win.create_font
    && win.new_serial_comm

-- What is left of a resource at the end: it is not had; `none` for a port that could not be opened, since
-- a handle is closed that is no port.
abbrev pub at_end : Windows → Resource → Option Bool
at_end win port = if tries_port win && not (is_open win.os.create) then none else some false
at_end win _ = some false

-- Every resource is acquired only where it is not had, released only where it is, and released at the
-- end, but for the port where it could not be opened.
abbrev pub IsReleased : Windows → List AppCall → Type 0
IsReleased win log = (r : Resource) → tracks r (is_granted win r) log false ≡ at_end win r

abbrev pub windows_of :
    Bool → Bool → Bool → Bool → Bool → Bool → Bool → Os → List WindowMsg → ℕ → Windows
windows_of rc cw cf nn ns nm lo os ms qp = record {
  register_class = rc;
  create_window = cw;
  create_font = cf;
  new_nes_dbg = nn;
  new_serial_comm = ns;
  new_script_mgr = nm;
  lua_open = lo;
  os = os;
  messages = ms;
  quit_param = qp;
}

module _ (garbage : ℕ → ℕ) (behind : List ℕ) where
  abbrev ProgramRun : Windows → Type 0
  ProgramRun win =
      (log : List AppCall) × (win_main false garbage behind win
        ≡ some (if can_start win garbage then win.quit_param % 2 ^ 32 else 0, log))
      × IsReleased win log

  linked_case :
      (same nm lo : Bool) (os : Os) (ms : List WindowMsg) (qp : ℕ) (calls : List Call)
      → is_connected os garbage ≡ same
      → init false os garbage behind ≡ some (same, handle_if (is_open os.create), calls)
      → ((rest : List AppCall)
          → tracks port (is_open os.create) (serial_calls calls ++ rest) false
            ≡ tracks port (is_open os.create) rest (is_open os.create))
      → All ComesBack ms
      → ProgramRun (windows_of true true true true true nm lo os ms qp)
  unfolding win_main nes_dbg_init
  linked_case false nm lo os ms qp calls same ran at_port comes =
      let b = is_open os.create in
      rw same (
        rw (ran, run_app)
          (
            _,
            refl,
            every _
                (past_serial font true calls _ _ true refl
                  ∙ others_destroyed font true b true _ refl)
                (past_serial serial_object true calls _ _ true refl ∙ object_destroyed b _)
                (past_port b calls at_port _ _ ∙ port_destroyed b _)
                (past_serial script_object nm calls _ _ false refl
                  ∙ others_destroyed script_object nm b false _ refl)
                (past_serial lua_vm lo calls _ _ false refl
                  ∙ others_destroyed lua_vm lo b false _ refl)
                (past_serial debugger true calls _ _ true refl
                  ∙ others_destroyed debugger true b true _ refl),
          ))
  linked_case true false lo os ms qp calls same ran at_port comes =
      let b = is_open os.create in
      rw same (
        rw (ran, run_app)
          (
            _,
            refl,
            every _
                (past_serial font true calls _ _ true refl
                  ∙ others_destroyed font true b false _ refl)
                (past_serial serial_object true calls _ _ true refl ∙ object_destroyed b _)
                (past_port b calls at_port _ _ ∙ port_destroyed b _)
                (past_serial script_object false calls _ _ false refl
                  ∙ others_destroyed script_object false b false _ refl)
                (past_serial lua_vm lo calls _ _ false refl
                  ∙ others_destroyed lua_vm lo b false _ refl)
                (past_serial debugger true calls _ _ true refl
                  ∙ others_destroyed debugger true b true _ refl),
          ))
  linked_case true true false os ms qp calls same ran at_port comes =
      let b = is_open os.create in
      rw same (
        rw (ran, run_app)
          (
            _,
            refl,
            every _
                (past_serial font true calls _ _ true refl
                  ∙ others_destroyed font true b false _ refl)
                (past_serial serial_object true calls _ _ true refl ∙ object_destroyed b _)
                (past_port b calls at_port _ _ ∙ port_destroyed b _)
                (past_serial script_object true calls _ _ false refl
                  ∙ others_destroyed script_object true b false _ refl)
                (past_serial lua_vm false calls _ _ false refl
                  ∙ others_destroyed lua_vm false b false _ refl)
                (past_serial debugger true calls _ _ true refl
                  ∙ others_destroyed debugger true b true _ refl),
          ))
  linked_case true true true os ms qp calls same ran at_port comes =
      let b = is_open os.create in
      let (handled, looped, neutral) = message_loop-IsNeutral ms comes in
      rw same (
        rw (ran, run_app, looped)
          (
            _,
            refl,
            every _
                (past_serial font true calls _ _ true refl
                  ∙ neutral font true true _
                  ∙ others_destroyed font true b false _ refl)
                (past_serial serial_object true calls _ _ true refl
                  ∙ neutral serial_object true true _
                  ∙ object_destroyed b _)
                (past_port b calls at_port _ _ ∙ neutral port b b _ ∙ port_destroyed b _)
                (past_serial script_object true calls _ _ false refl
                  ∙ neutral script_object true true _
                  ∙ others_destroyed script_object true b true _ refl)
                (past_serial lua_vm true calls _ _ false refl
                  ∙ neutral lua_vm true true _
                  ∙ others_destroyed lua_vm true b true _ refl)
                (past_serial debugger true calls _ _ true refl
                  ∙ neutral debugger true true _
                  ∙ others_destroyed debugger true b true _ refl),
          ))

  every_case :
      (rc cw cf nn ns nm lo : Bool) (os : Os) (ms : List WindowMsg) (qp : ℕ)
      → length (os.read 4).1 ≤ 4
      → All ComesBack ms
      → ProgramRun (windows_of rc cw cf nn ns nm lo os ms qp)
  unfolding win_main nes_dbg_init
  every_case false cw cf nn ns nm lo os ms qp h comes =
      (_, refl, every _ refl refl refl refl refl refl)
  every_case true false cf nn ns nm lo os ms qp h comes =
      (_, refl, every _ refl refl refl refl refl refl)
  every_case true true cf false ns nm lo os ms qp h comes =
      (_, refl, every _ refl refl refl refl refl refl)
  every_case true true false true ns nm lo os ms qp h comes =
      (_, refl, every _ refl refl refl refl refl refl)
  every_case true true true true false nm lo os ms qp h comes =
      (_, refl, every _ refl refl refl refl refl refl)
  every_case true true true true true nm lo os ms qp h comes =
      let (calls, ran, at_port) = init-port garbage behind os h in
      linked_case (is_connected os garbage) nm lo os ms qp calls refl ran at_port comes

-- In a release build, with a serial driver that never returns more bytes than it was asked for, and where
-- each operation that a menu command starts comes back, a run of the program comes back, whatever else
-- Windows and Lua answer, with no pointer read that was never set. It returns the code that ended the
-- message loop, cut to 32 bits, if the window was made, the font and the objects were created, the FPGA
-- answered and Lua opened, and 0 otherwise. The font, the port, the Lua machine and the three objects are
-- each acquired only where they are not had, released only where they are had, and released at the end,
-- with one exception: exactly where the run got as far as opening the port and Windows did not open it, a
-- handle is closed that is no port.
pub win_main-releases :
    (garbage : ℕ → ℕ) (behind : List ℕ) (win : Windows)
    → length (win.os.read 4).1 ≤ 4
    → All ComesBack win.messages
    → (log : List AppCall) × (win_main false garbage behind win
        ≡ some (if can_start win garbage then win.quit_param % 2 ^ 32 else 0, log))
      × IsReleased win log
win_main-releases garbage behind win h comes =
    every_case garbage behind win.register_class win.create_window win.create_font win.new_nes_dbg
      win.new_serial_comm win.new_script_mgr win.lua_open win.os win.messages win.quit_param h comes
