-- ===== src/Link/Effects.antt =====
-- What the commands of the protocol mean for the board: the events that the interface of
-- hw/src/hci/hci.v causes, the registers that last, and the clocks that it takes.
use fpga_nes.Prelude.{ℕ, ◌+◌, ◌*◌, ◌%◌, List, [], ◌∷◌, ◌++◌, length}
use fpga_nes.Protocol.{Command, encode}
use fpga_nes.Hci.{HciState}
use fpga_nes.Link.{Event, cpu_write, ppu_write, reg_write, cart_update, reply, Board}
use fpga_nes.Link.Clocks.{writes}
use fpga_nes.Link.Reads.{reads, double}
use fpga_nes.Link.Echo.{replies}

-- The cartridge configuration: five bytes, the first one highest.
abbrev pub cart_cfg_of : ℕ → ℕ → ℕ → ℕ → ℕ → ℕ
cart_cfg_of a b c d e = a * 0x100000000 + b * 0x1000000 + c * 0x10000 + d * 0x100 + e

-- What a command does to the board and sends back, after the events of `trace`.
abbrev pub effects : Board → List Event → Command → List Event
effects b trace (Command.echo payload) = replies payload
effects b trace (Command.cpu_mem_rd addr n) = reads b.cpu_din trace addr n
effects b trace (Command.cpu_mem_wr addr payload) = writes cpu_write addr payload
effects b trace Command.dbg_hlt = []
effects b trace Command.dbg_run = []
effects b trace (Command.cpu_reg_rd reg) = reply (b.dbgreg trace (reg % 16)) ∷ []
effects b trace (Command.cpu_reg_wr reg v) = reg_write (reg % 16) v ∷ []
effects b trace Command.query_hlt = reply 1 ∷ []
effects b trace (Command.ppu_mem_rd addr n) = reads b.ppu_din trace addr n
effects b trace (Command.ppu_mem_wr addr payload) = writes ppu_write addr payload
effects b trace Command.ppu_disable = cpu_write 0x2000 0 ∷ cpu_write 0x2001 0 ∷ []
effects b trace (Command.cart_set_cfg v w x y z) = cart_update (cart_cfg_of v w x y z) ∷ []

-- The cartridge configuration register after a command.
abbrev pub cfg_after : ℕ → Command → ℕ
cfg_after cfg (Command.cart_set_cfg v w x y z) = cart_cfg_of v w x y z
cfg_after cfg _ = cfg

-- `dbg_run` ends the break; every other command keeps the interface decoding.
abbrev pub state_after : Command → HciState
state_after Command.dbg_run = HciState.disabled
state_after _ = HciState.decode

-- How many clocks a command takes when no byte is late.
abbrev pub clocks : Command → ℕ
clocks (Command.echo payload) = 3 + length payload
clocks (Command.cpu_mem_rd addr n) = 5 + double n
clocks (Command.cpu_mem_wr addr payload) = 5 + length payload
clocks Command.dbg_hlt = 1
clocks Command.dbg_run = 1
clocks (Command.cpu_reg_rd reg) = 2
clocks (Command.cpu_reg_wr reg v) = 3
clocks Command.query_hlt = 1
clocks (Command.ppu_mem_rd addr n) = 5 + double n
clocks (Command.ppu_mem_wr addr payload) = 5 + length payload
clocks Command.ppu_disable = 7
clocks (Command.cart_set_cfg v w x y z) = 7

-- The same for commands one after the other.
abbrev pub encode_all : List Command → List ℕ
encode_all [] = []
encode_all (c ∷ cs) = encode c ++ encode_all cs

abbrev pub history : Board → List Event → List Command → List Event
history b trace [] = trace
history b trace (c ∷ cs) = history b (trace ++ effects b trace c) cs

abbrev pub cfg_after_all : ℕ → List Command → ℕ
cfg_after_all cfg [] = cfg
cfg_after_all cfg (c ∷ cs) = cfg_after_all (cfg_after cfg c) cs

abbrev pub clocks_all : List Command → ℕ
clocks_all [] = 0
clocks_all (c ∷ cs) = clocks c + clocks_all cs
