-- ===== src/Link/Replies.antt =====
-- What the interface of hw/src/hci/hci.v sends back to the debugger: the bytes among its events.
use fpga_nes.Prelude.{ℕ, zero, suc, ◌≡◌, refl, ap, List, [], ◌∷◌, ◌++◌, length}
use fpga_nes.Protocol.{Command, reply_length}
use fpga_nes.Link.{Event, reply, cpu_write, ppu_write, reg_write, cart_update, Board}
use fpga_nes.Link.Clocks.{writes}
use fpga_nes.Link.Reads.{reads}
use fpga_nes.Link.Echo.{replies}
use fpga_nes.Link.Effects.{effects}
use fpga_nes.Hci.{next_addr}

abbrev pub replied : List Event → List ℕ
replied [] = []
replied (reply v ∷ trace) = v ∷ replied trace
replied (e ∷ trace) = replied trace

pub replied-append : (xs ys : List Event) → replied (xs ++ ys) ≡ replied xs ++ replied ys
replied-append [] ys = refl
replied-append (reply v ∷ xs) ys = ap (λ r. v ∷ r) (replied-append xs ys)
replied-append (cpu_write a v ∷ xs) ys = replied-append xs ys
replied-append (ppu_write a v ∷ xs) ys = replied-append xs ys
replied-append (reg_write a v ∷ xs) ys = replied-append xs ys
replied-append (cart_update v ∷ xs) ys = replied-append xs ys

pub replied-replies : (payload : List ℕ) → replied (replies payload) ≡ payload
replied-replies [] = refl
replied-replies (p ∷ payload) = ap (λ r. p ∷ r) (replied-replies payload)

length-replied-reads :
    (din : List Event → ℕ → ℕ) (trace : List Event) (a n : ℕ)
    → length (replied (reads din trace a n)) ≡ n
length-replied-reads din trace a zero = refl
length-replied-reads din trace a (suc n) = ap suc (length-replied-reads din _ (next_addr a) n)

replied-cpu_writes : (a : ℕ) (payload : List ℕ) → length (replied (writes cpu_write a payload)) ≡ 0
replied-cpu_writes a [] = refl
replied-cpu_writes a (p ∷ payload) = replied-cpu_writes (next_addr a) payload

replied-ppu_writes : (a : ℕ) (payload : List ℕ) → length (replied (writes ppu_write a payload)) ≡ 0
replied-ppu_writes a [] = refl
replied-ppu_writes a (p ∷ payload) = replied-ppu_writes (next_addr a) payload

-- A command is answered with as many bytes as the protocol promises.
pub length-replied-effects :
    (b : Board) (trace : List Event) (c : Command)
    → length (replied (effects b trace c)) ≡ reply_length c
length-replied-effects b trace (Command.echo payload) = ap length (replied-replies payload)
length-replied-effects b trace (Command.cpu_mem_rd addr n) =
    length-replied-reads b.cpu_din trace addr n
length-replied-effects b trace (Command.ppu_mem_rd addr n) =
    length-replied-reads b.ppu_din trace addr n
length-replied-effects b trace (Command.cpu_mem_wr addr payload) = replied-cpu_writes addr payload
length-replied-effects b trace (Command.ppu_mem_wr addr payload) = replied-ppu_writes addr payload
length-replied-effects b trace _ = refl
