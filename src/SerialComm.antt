-- ===== src/SerialComm.antt =====
-- The serial port of sw/src/serialcomm.cpp. What Windows answers is the argument `Os`; a run is the
-- calls made, in order. It is `none` where the code does not come back: a failed assertion of a
-- debug build, or an access outside a buffer.
pub mod Connect
use fpga_nes.Prelude.{
  ℕ, Bool, true, false, not, ◌&&◌, Option, none, some, List, [], ◌∷◌, ◌++◌, ◌==◌, length, drop,
  if◌then◌else◌, ◌>>=◌,
}
use fpga_nes.Memory.{new_bytes}
use fpga_nes.Packet.{echo_packet, size_in_bytes, return_bytes_expected}
use fpga_nes.Host.{prefix?}

pub data Handle : Type 0 where
  null invalid com5 : Handle

-- The outcome of `CreateFile`, with the error that the code asks for.
pub data Opening : Type 0 where
  opened file_not_found other_error : Opening

-- The message boxes.
pub data Notice : Type 0 where
  com5_not_found unknown_error get_state_error set_state_error set_timeouts_error not_connected :
      Notice

pub data Parity : Type 0 where
  odd_parity : Parity

pub data Call : Type 0 where
  create_file get_comm_state : Call
  set_comm_state : ℕ → ℕ → ℕ → Parity → Call
  set_comm_timeouts : ℕ → ℕ → ℕ → ℕ → ℕ → Call
  sleep : ℕ → Call
  write_file : List ℕ → Call
  read_file : ℕ → Call
  close_handle : Handle → Call
  notice : Notice → Call

-- `write` returns success and the number of bytes written, `read` success and the bytes received.
pub record Os : Type 0 where
  pub create : Opening
  pub get_state : Bool
  pub set_state : Bool
  pub set_timeouts : Bool
  pub write : List ℕ → Bool × ℕ
  pub read : ℕ → Bool × List ℕ

-- `CreateFile` and the choice of the message.
abbrev pub open_port : Os → Bool × Handle × List Call
open_port os = elim os.create [
  | opened ↦ (true, com5, create_file ∷ [])
  | file_not_found ↦ (false, invalid, create_file ∷ notice com5_not_found ∷ [])
  | other_error ↦ (false, invalid, create_file ∷ notice unknown_error ∷ [])
]

-- `if (ret)` around a call whose failure clears `ret` and shows a message.
abbrev pub stage : Call → Bool → Notice → Bool × List Call → Bool × List Call
stage call ok failure (ret, log) =
    if ret
    then (if ok then (true, log ++ call ∷ []) else (false, log ++ (call ∷ notice failure ∷ [])))
    else (false, log)

-- 38400 baud, eight bits, one stop bit (`ONESTOPBIT` is 0), odd parity.
abbrev pub set_state_call : Call
set_state_call = set_comm_state 38400 8 0 odd_parity

abbrev pub set_timeouts_call : Call
set_timeouts_call = set_comm_timeouts 50 10 5000 10 50

-- `strcmp(a, b) == 0`
abbrev pub strcmp : List ℕ → List ℕ → Option Bool
strcmp [] b = none
strcmp (x ∷ a) [] = none
strcmp (x ∷ a) (y ∷ b) =
    let rest = strcmp a b in if x == y then (if x == 0 then some true else rest) else some false

abbrev pub init_string : List ℕ
init_string = b'N' ∷ b'E' ∷ b'S' ∷ 0 ∷ []

abbrev pub destroy : Handle → List Call
destroy null = []
destroy h = close_handle h ∷ []

module _ (debug : Bool) (os : Os) where
  -- `assert(test)`
  abbrev pub assert : Bool → Option (Unit {0})
  assert test = if debug && not test then none else some tt

  unfoldable pub send_data : List ℕ → Option Bool
  send_data bytes = do
    let (ret, written) = os.write bytes
    _ ← assert (written == length bytes)
    some (if written == length bytes then ret else false)

  -- The buffer afterwards, of which the part that was not received is what it was before.
  unfoldable pub receive_data : List ℕ → ℕ → Option (Bool × List ℕ)
  receive_data buffer n = do
    let (ret, bytes) = os.read n
    _ ← assert (length bytes == n)
    some (if length bytes == n then ret else false, bytes ++ drop (length bytes) buffer)

  module _ (garbage : ℕ → ℕ) (behind_string : List ℕ) where
    -- The echo that tests the connection. `behind_string` is the memory behind "NES".
    unfoldable pub test_echo : Handle → List Call → Option (Bool × Handle × List Call)
    test_echo handle log = do
      p ← echo_packet garbage (init_string ++ behind_string) 4
      n ← size_in_bytes p
      bytes ← prefix? n p.bytes
      _ ← send_data bytes
      m ← return_bytes_expected p
      (_, out) ← receive_data (new_bytes garbage m) m
      same ← strcmp (init_string ++ behind_string) out
      let calls = sleep 200 ∷ write_file bytes ∷ read_file m ∷ []
      some (same, handle, log ++ (if same then calls else calls ++ notice not_connected ∷ []))

    unfoldable pub init : Option (Bool × Handle × List Call)
    init =
        let (ret, handle, log) = open_port os in
        let (ret, log) = stage get_comm_state os.get_state get_state_error (ret, log) in
        let (ret, log) = stage set_state_call os.set_state set_state_error (ret, log) in
        let (ret, log) = stage set_timeouts_call os.set_timeouts set_timeouts_error (ret, log) in
        if ret then test_echo handle log else some (false, handle, log)
