-- ===== src/NesDbg/Resources.antt =====
-- What the calls of sw/src/main.cpp and sw/src/nesdbg.cpp acquire and release.
use fpga_nes.Prelude.{
  ℕ, ◌%◌, ◌^◌, ◌≤◌, ◌≡◌, refl, ap, ◌∙◌, Bool, true, false, not, All, ◌==◌, ◌&&◌, Option, none, some,
  List, [], ◌∷◌, ◌++◌, arith, length, if◌then◌else◌, ◌>>=◌, append_assoc,
}
use fpga_nes.SerialComm.{
  Handle, com5, invalid, Opening, opened, file_not_found, other_error, Call, create_file,
  close_handle, Os, init, init_string,
}
use fpga_nes.SerialComm.Connect.{
  is_open, is_configured, answer, equal, echo_calls, os_of, test_echo_lem,
}
use fpga_nes.NesDbg.{
  idm_file_exit, idm_file_loadrom, idm_tools_rawdebug, idm_tools_testscripts, Windows, WindowMsg,
  wm_command, wm_destroy, other_msg, AppCall, serial_calls, menu, destroy_serial_comm, message_loop,
}

pub data Resource : Type 0 where
  font serial_object port script_object lua_vm debugger : Resource

-- Whether it is had after a request that was granted or not; `none` where it was had already.
abbrev pub acquire : Bool → Bool → Option Bool
acquire true true = none
acquire true false = some true
acquire false held = some held

-- `none` where it is released without being had.
abbrev pub release : Bool → Option Bool
release true = some false
release false = none

-- What a call does to one resource; `none` too where a handle is closed that is no port.
abbrev pub change : Resource → Bool → AppCall → Bool → Option Bool
change font granted AppCall.create_font held = acquire granted held
change font granted AppCall.delete_font held = release held
change serial_object granted AppCall.new_serial_comm held = acquire granted held
change serial_object granted AppCall.delete_serial_comm held = release held
change port granted (AppCall.serial create_file) held = acquire granted held
change port granted (AppCall.serial (close_handle com5)) held = release held
change port granted (AppCall.serial (close_handle invalid)) held = none
change script_object granted AppCall.new_script_mgr held = acquire granted held
change script_object granted AppCall.delete_script_mgr held = release held
change lua_vm granted AppCall.lua_open held = acquire granted held
change lua_vm granted AppCall.lua_close held = release held
change debugger granted AppCall.new_nes_dbg held = acquire granted held
change debugger granted AppCall.delete_nes_dbg held = release held
change r granted call held = some held

-- Whether the resource is had after the calls; `none` where it was acquired twice without a release, or
-- released without being had.
abbrev pub tracks : Resource → Bool → List AppCall → Bool → Option Bool
tracks r granted [] held = some held
tracks r granted (call ∷ log) held = do
  held' ← change r granted call held
  tracks r granted log held'

-- Whether Windows or Lua grants it.
abbrev pub is_granted : Windows → Resource → Bool
is_granted win font = win.create_font
is_granted win serial_object = win.new_serial_comm
is_granted win port = is_open win.os.create
is_granted win script_object = win.new_script_mgr
is_granted win lua_vm = win.lua_open
is_granted win debugger = win.new_nes_dbg

abbrev is_port : Resource → Bool
is_port port = true
is_port _ = false

-- The calls of the serial port touch the port alone.
pub serial_neutral :
    (r : Resource) (granted : Bool) (calls : List Call) (rest : List AppCall) (held : Bool)
    → is_port r ≡ false
    → tracks r granted (serial_calls calls ++ rest) held ≡ tracks r granted rest held
serial_neutral r granted [] rest held other = refl
serial_neutral font granted (c ∷ calls) rest held other =
    serial_neutral font granted calls rest held other
serial_neutral serial_object granted (c ∷ calls) rest held other =
    serial_neutral serial_object granted calls rest held other
serial_neutral script_object granted (c ∷ calls) rest held other =
    serial_neutral script_object granted calls rest held other
serial_neutral lua_vm granted (c ∷ calls) rest held other =
    serial_neutral lua_vm granted calls rest held other
serial_neutral debugger granted (c ∷ calls) rest held other =
    serial_neutral debugger granted calls rest held other
serial_neutral port granted (c ∷ calls) rest held other = absurd (cc)

-- What a command calls whose operation comes back.
abbrev menu_calls : ℕ → List AppCall
menu_calls id =
    if id == idm_file_exit
    then AppCall.post_close ∷ []
    else if id == idm_file_loadrom
    then AppCall.load_rom ∷ []
    else if id == idm_tools_rawdebug
    then AppCall.raw_debug_dlg ∷ []
    else if id == idm_tools_testscripts
    then AppCall.test_script_dlg ∷ []
    else []

menu-comes : (id : ℕ) → menu id true ≡ some (menu_calls id)
menu-comes id = ground arith

menu_neutral :
    (r : Resource) (granted : Bool) (id : ℕ) (rest : List AppCall) (held : Bool)
    → tracks r granted (menu_calls id ++ rest) held ≡ tracks r granted rest held
menu_neutral font granted id rest held = ground arith
menu_neutral serial_object granted id rest held = ground arith
menu_neutral port granted id rest held = ground arith
menu_neutral script_object granted id rest held = ground arith
menu_neutral lua_vm granted id rest held = ground arith
menu_neutral debugger granted id rest held = ground arith

quit_neutral :
    (r : Resource) (granted held : Bool) → change r granted AppCall.post_quit held ≡ some held
quit_neutral font granted held = refl
quit_neutral serial_object granted held = refl
quit_neutral port granted held = refl
quit_neutral script_object granted held = refl
quit_neutral lua_vm granted held = refl
quit_neutral debugger granted held = refl

def_neutral :
    (r : Resource) (granted held : Bool) → change r granted AppCall.def_window_proc held ≡ some held
def_neutral font granted held = refl
def_neutral serial_object granted held = refl
def_neutral port granted held = refl
def_neutral script_object granted held = refl
def_neutral lua_vm granted held = refl
def_neutral debugger granted held = refl

-- The operation that a message starts comes back.
abbrev pub ComesBack : WindowMsg → Type 0
ComesBack (wm_command w_param comes_back) = comes_back ≡ true
ComesBack _ = Unit {0}

-- Calls that touch none of the resources.
abbrev pub IsNeutral : List AppCall → Type 0
IsNeutral calls =
    (r : Resource) (granted held : Bool) (rest : List AppCall)
    → tracks r granted (calls ++ rest) held ≡ tracks r granted rest held

IsNeutral-append :
    (calls later : List AppCall) → IsNeutral calls → IsNeutral later → IsNeutral (calls ++ later)
IsNeutral-append calls later h h' r granted held rest =
    ap (λ l. tracks r granted l held) (append_assoc calls later rest)
    ∙ h r granted held (later ++ rest)
    ∙ h' r granted held rest

-- The messages touch none of them.
pub message_loop-IsNeutral :
    (messages : List WindowMsg)
    → All ComesBack messages
    → (calls : List AppCall) × (message_loop messages ≡ some calls) × IsNeutral calls
message_loop-IsNeutral [] h = ([], refl, λ r granted held rest. refl)
message_loop-IsNeutral (wm_command w comes_back ∷ messages) (comes, h) =
    let (later, ran, neutral) = message_loop-IsNeutral messages h in
    let id = w % 2 ^ 16 in
    (
      menu_calls id ++ later,
      rw (comes, menu-comes id, ran) refl,
      IsNeutral-append (menu_calls id) later
          (λ r granted held rest. menu_neutral r granted id rest held) neutral,
    )
message_loop-IsNeutral (wm_destroy ∷ messages) (other, h) =
    let (later, ran, neutral) = message_loop-IsNeutral messages h in
    (
      AppCall.post_quit ∷ later,
      rw ran refl,
      λ r granted held rest. rw (quit_neutral r granted held) (neutral r granted held rest),
    )
message_loop-IsNeutral (other_msg a ∷ messages) (other, h) =
    let (later, ran, neutral) = message_loop-IsNeutral messages h in
    (
      AppCall.def_window_proc ∷ later,
      rw ran refl,
      λ r granted held rest. rw (def_neutral r granted held) (neutral r granted held rest),
    )

-- The handle that `Init` leaves.
abbrev pub handle_if : Bool → Handle
handle_if is_open = if is_open then com5 else invalid

module _ (garbage : ℕ → ℕ) (behind : List ℕ) where
  -- A run of `SerialComm::Init`, and what becomes of the port.
  abbrev pub PortRun : Os → Type 0
  PortRun os =
      (calls : List Call) × (init false os garbage behind
        ≡ some (
          is_configured os && equal init_string (answer os garbage),
          handle_if (is_open os.create),
          calls,
        ))
      × ((rest : List AppCall)
          → tracks port (is_open os.create) (serial_calls calls ++ rest) false
            ≡ tracks port (is_open os.create) rest (is_open os.create))

  echo_neutral :
      (same : Bool) (rest : List AppCall)
      → tracks port true (serial_calls (echo_calls same) ++ rest) true ≡ tracks port true rest true
  echo_neutral true rest = refl
  echo_neutral false rest = refl

  port_run :
      (c : Opening) (g s t : Bool) (w : List ℕ → Bool × ℕ) (r : ℕ → Bool × List ℕ)
      → length (r 4).1 ≤ 4
      → PortRun (os_of c g s t w r)
  unfolding init
  port_run file_not_found g s t w r h = (_, refl, λ rest. refl)
  port_run other_error g s t w r h = (_, refl, λ rest. refl)
  port_run opened false s t w r h = (_, refl, λ rest. refl)
  port_run opened true false t w r h = (_, refl, λ rest. refl)
  port_run opened true true false w r h = (_, refl, λ rest. refl)
  port_run opened true true true w r h = (
    _,
    test_echo_lem (os_of opened true true true w r) garbage behind com5 _ h,
    echo_neutral (equal init_string (answer (os_of opened true true true w r) garbage)),
  )

  pub init-port : (os : Os) → length (os.read 4).1 ≤ 4 → PortRun os
  init-port os h = port_run os.create os.get_state os.set_state os.set_timeouts os.write os.read h

-- The destructor of SerialComm releases the port, if it is open, and closes no port otherwise; and it
-- releases the object.
pub port_destroyed :
    (b : Bool) (rest : List AppCall)
    → tracks port b (destroy_serial_comm (handle_if b) ++ rest) b
      ≡ (if not b then none else tracks port b rest false)
port_destroyed true rest = refl
port_destroyed false rest = refl

pub object_destroyed :
    (b : Bool) (rest : List AppCall)
    → tracks serial_object true (destroy_serial_comm (handle_if b) ++ rest) true
      ≡ tracks serial_object true rest false
object_destroyed true rest = refl
object_destroyed false rest = refl

abbrev is_serial : Resource → Bool
is_serial port = true
is_serial serial_object = true
is_serial _ = false

-- A resource that the destructor of SerialComm does not touch.
pub others_destroyed :
    (r : Resource) (granted b held : Bool) (rest : List AppCall)
    → is_serial r ≡ false
    → tracks r granted (destroy_serial_comm (handle_if b) ++ rest) held ≡ tracks r granted rest held
others_destroyed port granted b held rest other = absurd (cc)
others_destroyed serial_object granted b held rest other = absurd (cc)
others_destroyed font granted true held rest other = refl
others_destroyed font granted false held rest other = refl
others_destroyed script_object granted true held rest other = refl
others_destroyed script_object granted false held rest other = refl
others_destroyed lua_vm granted true held rest other = refl
others_destroyed lua_vm granted false held rest other = refl
others_destroyed debugger granted true held rest other = refl
others_destroyed debugger granted false held rest other = refl

-- The same of a log in which they stand in the middle.
pub past_serial :
    (r : Resource) (granted : Bool) (calls : List Call) (xs ys : List AppCall) (held : Bool)
    → is_port r ≡ false
    → tracks r granted ((serial_calls calls ++ xs) ++ ys) held ≡ tracks r granted (xs ++ ys) held
past_serial r granted calls xs ys held other =
    ap (λ l. tracks r granted l held) (append_assoc (serial_calls calls) xs ys)
    ∙ serial_neutral r granted calls (xs ++ ys) held other

pub past_port :
    (b : Bool) (calls : List Call)
    → ((rest : List AppCall)
        → tracks port b (serial_calls calls ++ rest) false ≡ tracks port b rest b)
    → (xs ys : List AppCall)
    → tracks port b ((serial_calls calls ++ xs) ++ ys) false ≡ tracks port b (xs ++ ys) b
past_port b calls at_port xs ys =
    ap (λ l. tracks port b l false) (append_assoc (serial_calls calls) xs ys) ∙ at_port (xs ++ ys)
