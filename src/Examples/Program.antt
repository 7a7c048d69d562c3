-- ===== src/Examples/Program.antt =====
-- The program with a port on which nothing answers, and its two dialogs.
use fpga_nes.Prelude.{ℕ, ◌≡◌, refl, true, false, some, none, List, [], ◌∷◌, length, arith}
use fpga_nes.Protocol.{Command}
use fpga_nes.Hci.{HciState}
use fpga_nes.Link.{cpu_write, reply}
use fpga_nes.Link.Clocks.{Scratch, fpga}
use fpga_nes.SerialComm.{Os, opened}
use fpga_nes.NesDbg.{
  Windows, NesDbg, AppCall, wm_command, wm_destroy, new_nes_dbg_object, nes_dbg_init, win_main,
}
use fpga_nes.NesDbg.Released.{IsReleased, win_main-releases}
use fpga_nes.NesDbg.Init.{ready_object, nes_dbg_init_lem}
use fpga_nes.RawDebug.Dialog.{sends, answers, raw_session, raw_session-halted}
use fpga_nes.ScriptMgr.Halted.{fpga_link}
use fpga_nes.Examples.{board, idle, garbage}

abbrev echoing_port : Os
echoing_port = record {
  create = opened;
  get_state = true;
  set_state = true;
  set_timeouts = true;
  write = λ bytes. (true, length bytes);
  read = λ n. (true, b'N' ∷ b'E' ∷ b'S' ∷ 0 ∷ []);
}

-- A menu command, and the end.
abbrev windows : Windows
windows = record {
  register_class = true;
  create_window = true;
  create_font = true;
  new_nes_dbg = true;
  new_serial_comm = true;
  new_script_mgr = true;
  lua_open = true;
  os = echoing_port;
  messages = wm_command 40003 true ∷ wm_destroy ∷ [];
  quit_param = 7;
}

win_main-releases_example :
    (log : List AppCall) × (win_main false garbage [] windows ≡ some (7, log))
    × IsReleased windows log
win_main-releases_example = win_main-releases garbage [] windows (omega arith) (refl, (tt, tt))

nes_dbg_init_lem_example :
    (d : NesDbg) × (log : List AppCall) × (nes_dbg_init false garbage [] windows new_nes_dbg_object
      ≡ some (true, d, log))
    × (true ≡ true → d ≡ ready_object)
    × (true ≡ false → d.script_mgr ≡ none)
nes_dbg_init_lem_example = nes_dbg_init_lem garbage [] windows (omega arith)

abbrev poke : Command
poke = Command.cpu_mem_wr 0x0300 (0xA9 ∷ [])

abbrev greet : Command
greet = Command.echo (0x41 ∷ [])

-- Six clocks for the seven bytes of a write, and four for the four of an echo.
abbrev clocks_for : List ℕ → ℕ
clocks_for bytes = length bytes

raw_session-halted_example :
    (s' : Scratch) × (raw_session true garbage 2
        (fpga_link board clocks_for)
        (sends (poke ∷ greet ∷ []))
        (fpga HciState.decode idle 0 0 [] [], 0)
      ≡ some (
        answers board [] (poke ∷ greet ∷ []),
        (fpga HciState.decode s' 0 0 [] (cpu_write 0x300 0xA9 ∷ reply 0x41 ∷ []), 1),
      ))
raw_session-halted_example =
    raw_session-halted true garbage 2 board clocks_for (poke ∷ greet ∷ []) idle 0 0 [] (
      ((omega arith, omega arith, (omega arith, tt)), tt, refl),
      (((omega arith, (omega arith, tt)), tt, refl), tt),
    )
