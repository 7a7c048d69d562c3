-- ===== src/SerialComm/Connect.antt =====
-- `SerialComm::Init` of sw/src/serialcomm.cpp: when it succeeds, what it sends, and the connection to
-- a halted FPGA.
use fpga_nes.Prelude.{
  ℕ, suc, ◌≤◌, ◌≡◌, refl, ap, ◌∙◌, Bool, true, false, ◌&&◌, some, List, [], ◌∷◌, ◌++◌, arith,
  length, drop, length-append, length-drop, ◌==◌, if◌then◌else◌,
}
use fpga_nes.Memory.{new_bytes}
use fpga_nes.Protocol.{Command, encode}
use fpga_nes.Packet.{size_in_bytes, return_bytes_expected}
use fpga_nes.Packet.Wire.{echo_packet_lem}
use fpga_nes.Hci.{HciState}
use fpga_nes.Link.{Board, run}
use fpga_nes.Link.Clocks.{Scratch, fpga}
use fpga_nes.Link.Effects.{clocks}
use fpga_nes.Link.Deliver.{deliver}
use fpga_nes.Link.Replies.{replied}
use fpga_nes.SerialComm.{
  Handle, com5, invalid, Opening, opened, file_not_found, other_error, Call, sleep, write_file,
  read_file, notice, not_connected, Os, strcmp, init_string, test_echo, init, send_data,
  receive_data,
}

-- Equality of byte strings.
abbrev pub equal : List ℕ → List ℕ → Bool
equal [] [] = true
equal [] (y ∷ ys) = false
equal (x ∷ xs) [] = false
equal (x ∷ xs) (y ∷ ys) = (x == y) && equal xs ys

-- Four bytes never make the comparison run past their end.
strcmp_lem :
    (behind out : List ℕ)
    → length out ≡ 4
    → strcmp (init_string ++ behind) out ≡ some (equal init_string out)
strcmp_lem behind (a ∷ b ∷ c ∷ d ∷ []) h = ground arith
strcmp_lem behind [] h = absurd (omega arith)
strcmp_lem behind (a ∷ []) h = absurd (omega arith)
strcmp_lem behind (a ∷ b ∷ []) h = absurd (omega arith)
strcmp_lem behind (a ∷ b ∷ c ∷ []) h = absurd (omega arith)
strcmp_lem behind (a ∷ b ∷ c ∷ d ∷ e ∷ out) h = absurd (omega arith)

abbrev pub init_echo : Command
init_echo = Command.echo init_string

-- The receive buffer after the read.
abbrev pub answer : Os → (ℕ → ℕ) → List ℕ
answer os garbage = let bytes = (os.read 4).1 in bytes ++ drop (length bytes) (new_bytes garbage 4)

length-answer :
    (os : Os) (garbage : ℕ → ℕ) → length (os.read 4).1 ≤ 4 → length (answer os garbage) ≡ 4
length-answer os garbage h =
    let bytes = (os.read 4).1 in
    omega (
      arith,
      length-append bytes (drop (length bytes) (new_bytes garbage 4)),
      length-drop (length bytes) (new_bytes garbage 4),
    )

abbrev pub echo_calls : Bool → List Call
echo_calls same =
    let calls = sleep 200 ∷ write_file (encode init_echo) ∷ read_file 4 ∷ [] in
    if same then calls else calls ++ notice not_connected ∷ []

module _ (os : Os) (garbage : ℕ → ℕ) (behind : List ℕ) where
  pub test_echo_lem :
      (handle : Handle) (log : List Call)
      → length (os.read 4).1 ≤ 4
      → test_echo false os garbage behind handle log
        ≡ some (
          equal init_string (answer os garbage),
          handle,
          log ++ echo_calls (equal init_string (answer os garbage)),
        )
  unfolding test_echo send_data receive_data size_in_bytes return_bytes_expected
  test_echo_lem handle log h =
      rw (echo_packet_lem garbage init_string behind)
        (rw (strcmp_lem behind (answer os garbage) (length-answer os garbage h)))

-- What a run sends, and how many messages it shows.
abbrev pub written : List Call → List (List ℕ)
written [] = []
written (write_file bytes ∷ log) = bytes ∷ written log
written (c ∷ log) = written log

abbrev pub notices : List Call → ℕ
notices [] = 0
notices (notice n ∷ log) = suc (notices log)
notices (c ∷ log) = notices log

abbrev pub is_open : Opening → Bool
is_open opened = true
is_open _ = false

-- The port was opened and configured.
abbrev pub is_configured : Os → Bool
is_configured os = is_open os.create && os.get_state && os.set_state && os.set_timeouts

written_echo : (same : Bool) → written (echo_calls same) ≡ encode init_echo ∷ []
written_echo true = refl
written_echo false = refl

notices_echo : (same : Bool) → notices (echo_calls same) ≡ (if same then 0 else 1)
notices_echo true = refl
notices_echo false = refl

abbrev pub os_of : Opening → Bool → Bool → Bool → (List ℕ → Bool × ℕ) → (ℕ → Bool × List ℕ) → Os
os_of c g s t w r = record {
  create = c;
  get_state = g;
  set_state = s;
  set_timeouts = t;
  write = w;
  read = r;
}

module _ (garbage : ℕ → ℕ) (behind : List ℕ) where
  -- A run and what it returned, wrote and showed.
  abbrev Outcome : Os → Bool → Type 0
  Outcome os ret =
      (handle : Handle) × (log : List Call) × (init false os garbage behind
        ≡ some (ret, handle, log))
      × (written log ≡ (if is_configured os then encode init_echo ∷ [] else []))
      × (notices log ≡ (if ret then 0 else 1))

  outcome :
      (c : Opening) (g s t : Bool) (w : List ℕ → Bool × ℕ) (r : ℕ → Bool × List ℕ)
      → length (r 4).1 ≤ 4
      → Outcome (os_of c g s t w r) (
          is_configured (os_of c g s t w r)
          && equal init_string (answer (os_of c g s t w r) garbage))
  unfolding init
  outcome file_not_found g s t w r h = (invalid, _, refl, refl, refl)
  outcome other_error g s t w r h = (invalid, _, refl, refl, refl)
  outcome opened false s t w r h = (com5, _, refl, refl, refl)
  outcome opened true false t w r h = (com5, _, refl, refl, refl)
  outcome opened true true false w r h = (com5, _, refl, refl, refl)
  outcome opened true true true w r h = (
    com5,
    _,
    test_echo_lem (os_of opened true true true w r) garbage behind com5 _ h,
    written_echo _,
    notices_echo _,
  )

-- In a release build, with a serial driver that never returns more bytes than it was asked for: `Init`
-- comes back without a memory fault, whatever fresh memory held; it returns TRUE exactly if the port
-- was opened and configured and the four bytes of the receive buffer are "NES" and its terminator; it
-- sends the echo packet of "NES" once if the port was opened and configured and nothing otherwise; and
-- it shows one message exactly if it returns FALSE.
pub init_lem :
    (os : Os) (garbage : ℕ → ℕ) (behind : List ℕ)
    → length (os.read 4).1 ≤ 4
    → (handle : Handle) × (log : List Call) × (init false os garbage behind
        ≡ some (is_configured os && equal init_string (answer os garbage), handle, log))
      × (written log ≡ (if is_configured os then encode init_echo ∷ [] else []))
      × (notices log ≡ (if is_configured os && equal init_string (answer os garbage) then 0 else 1))
init_lem os garbage behind h =
    outcome garbage behind os.create os.get_state os.set_state os.set_timeouts os.write os.read h

test_echo_works :
    (debug : Bool) (garbage : ℕ → ℕ) (behind : List ℕ) (os : Os) (handle : Handle) (log : List Call)
    → os.write (encode init_echo) ≡ (true, 7)
    → os.read 4 ≡ (true, init_string)
    → test_echo debug os garbage behind handle log ≡ some (true, handle, log ++ echo_calls true)
unfolding test_echo send_data receive_data size_in_bytes return_bytes_expected
test_echo_works true garbage behind os handle log wrote received =
    rw (echo_packet_lem garbage init_string behind) (rw wrote (rw received))
test_echo_works false garbage behind os handle log wrote received =
    rw (echo_packet_lem garbage init_string behind) (rw received)

module _ (debug : Bool) (garbage : ℕ → ℕ) (behind : List ℕ) where
  works :
      (c : Opening) (g s t : Bool) (w : List ℕ → Bool × ℕ) (r : ℕ → Bool × List ℕ)
      → is_configured (os_of c g s t w r) ≡ true
      → w (encode init_echo) ≡ (true, 7)
      → r 4 ≡ (true, init_string)
      → (log : List Call) × (init debug (os_of c g s t w r) garbage behind ≡ some (true, com5, log))
        × (notices log ≡ 0)
  unfolding init
  works opened true true true w r h wrote received = (
    _,
    test_echo_works debug garbage behind (os_of opened true true true w r) com5 _ wrote received,
    refl,
  )
  works opened true true false w r h wrote received = absurd (cc)
  works opened true false t w r h wrote received = absurd (cc)
  works opened false s t w r h wrote received = absurd (cc)
  works file_not_found g s t w r h wrote received = absurd (cc)
  works other_error g s t w r h wrote received = absurd (cc)

-- A connection that works: Windows opens and configures the port and writes all it is given, and the
-- read returns what a halted FPGA answers to the echo packet. `Init` returns TRUE and shows no message,
-- in a debug build as well: the assertions hold.
pub init-halted :
    (debug : Bool) (os : Os) (garbage : ℕ → ℕ) (behind : List ℕ) (b : Board) (s : Scratch)
    (err cfg : ℕ)
    → is_configured os ≡ true
    → os.write (encode init_echo) ≡ (true, 7)
    → os.read 4 ≡ (
      true,
      replied
          (run b (clocks init_echo) (fpga HciState.decode s err cfg (encode init_echo) [])).trace,
    )
    → (log : List Call) × (init debug os garbage behind ≡ some (true, com5, log))
      × (notices log ≡ 0)
init-halted debug os garbage behind b s err cfg configured wrote received =
    let (s', echoed) =
      deliver b s err cfg init_echo [] []
        (omega arith, (omega arith, (omega arith, (omega arith, (omega arith, tt))))) in
    works debug garbage behind os.create os.get_state os.set_state os.set_timeouts os.write os.read
      configured wrote (received ∙ ap (λ f. (true, replied f.trace)) echoed)
