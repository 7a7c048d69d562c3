-- ===== src/Examples/Debugger.antt =====
-- The packets, the serial port, and the raw debug interface on concrete inputs.
use fpga_nes.Prelude.{◌≡◌, refl, true, false, some, none, List, [], ◌∷◌, ◌++◌, arith, length}
use fpga_nes.Protocol.{Command, encode}
use fpga_nes.Packet.{size_in_bytes, return_bytes_expected}
use fpga_nes.Packet.Wire.{packet_of}
use fpga_nes.Packet.Construct.{construct, construct_lem}
use fpga_nes.Hci.{HciState}
use fpga_nes.Link.{run}
use fpga_nes.Link.Clocks.{fpga}
use fpga_nes.Link.Effects.{clocks}
use fpga_nes.Link.Replies.{replied}
use fpga_nes.Host.{message, close_file, invalid_header, too_many_banks, bad_mirroring, bad_mapper}
use fpga_nes.LoadRom.{load_rom}
use fpga_nes.LoadRom.Outcome.{read_file}
use fpga_nes.LoadRom.Header.{Header, header_bytes, load_rom_refuses}
use fpga_nes.SerialComm.{Handle, com5, Call, opened, Os, init}
use fpga_nes.SerialComm.Connect.{init_echo, written, notices, init_lem, init-halted}
use fpga_nes.RawDebug.{create_obj_from_string, show_bytes, classify, nibble}
use fpga_nes.RawDebug.Parse.{create_obj-odd}
use fpga_nes.RawDebug.RoundTrip.{create_obj-show}
use fpga_nes.Examples.{board, idle, garbage}

abbrev poke : Command
poke = Command.cpu_mem_wr 0x0300 (0xA9 ∷ 0x01 ∷ [])

construct_lem_example :
    (construct garbage (0x55 ∷ []) poke ≡ some (packet_of poke))
    × (size_in_bytes (packet_of poke) ≡ some 7)
    × (return_bytes_expected (packet_of poke) ≡ some 0)
construct_lem_example =
    construct_lem garbage (0x55 ∷ []) poke
      (omega arith, omega arith, (omega arith, (omega arith, tt)))

-- A header that is wrong in all four ways.
abbrev wrong : Header
wrong = record {
  h0 = b'N';
  h1 = b'E';
  h2 = b'S';
  h3 = 0;
  prg_banks = 3;
  chr_banks = 1;
  flags6 = 0x18;
  flags7 = 0;
}

load_rom_refuses_example :
    load_rom garbage (read_file (header_bytes wrong ++ [])) []
    ≡ some (
      tt,
      message invalid_header
          ∷ message too_many_banks
          ∷ message bad_mirroring
          ∷ message bad_mapper
          ∷ close_file
          ∷ [],
    )
load_rom_refuses_example =
    load_rom_refuses garbage wrong []
      (
        omega arith,
        (
          omega arith,
          (
            omega arith,
            (omega arith, (omega arith, (omega arith, (omega arith, (omega arith, tt))))),
          ),
        ),
      )
      refl

-- A port that opens, on a line where nothing answers.
abbrev silent_port : Os
silent_port = record {
  create = opened;
  get_state = true;
  set_state = true;
  set_timeouts = true;
  write = λ bytes. (true, length bytes);
  read = λ n. (true, []);
}

init_lem_example :
    (handle : Handle) × (log : List Call) × (init false silent_port garbage []
      ≡ some (false, handle, log))
    × (written log ≡ encode init_echo ∷ [])
    × (notices log ≡ 1)
init_lem_example = init_lem silent_port garbage [] (omega arith)

-- A port with a halted FPGA behind it.
abbrev connected_port : Os
connected_port = record {
  create = opened;
  get_state = true;
  set_state = true;
  set_timeouts = true;
  write = λ bytes. (true, length bytes);
  read = λ n. (
    true,
    replied
        (run board (clocks init_echo) (fpga HciState.decode idle 0 0 (encode init_echo) [])).trace,
  );
}

init-halted_example :
    (log : List Call) × (init true connected_port garbage [] ≡ some (true, com5, log))
    × (notices log ≡ 0)
init-halted_example = init-halted true connected_port garbage [] board idle 0 0 refl refl refl

create_obj-show_example :
    create_obj_from_string garbage (show_bytes (encode poke)) ≡ some (some (packet_of poke))
create_obj-show_example =
    create_obj-show garbage poke (omega arith, omega arith, (omega arith, (omega arith, tt)))

digit_0 : classify b'0' ≡ nibble 0
unfolding classify
digit_0 = refl

digit_f : classify b'F' ≡ nibble 15
unfolding classify
digit_f = refl

-- The text "00F".
create_obj-odd_example : create_obj_from_string garbage (b'0' ∷ b'0' ∷ b'F' ∷ []) ≡ none
create_obj-odd_example =
    create_obj-odd garbage (b'0' ∷ b'0' ∷ b'F' ∷ [])
      ((0, digit_0), ((0, digit_0), ((15, digit_f), tt))) refl
