-- ===== src/LoadRom/Sent.antt =====
-- What `NesDbg::LoadRom` of sw/src/nesdbg.cpp sends over the line, and what it shows.
use fpga_nes.Prelude.{
  ℕ, ◌+◌, ◌≡◌, refl, sym, ap, ◌∙◌, List, [], ◌∷◌, ◌++◌, append-nil, append_assoc,
}
use fpga_nes.Protocol.{Command, encode}
use fpga_nes.Link.Effects.{encode_all}
use fpga_nes.Link.Laws.{encode_all-append}
use fpga_nes.Host.{HostEvent, Message, send, progress, message, close_file}
use fpga_nes.LoadRom.Blocks.{block_log}
use fpga_nes.LoadRom.Transfer.{Rom, prg_commands, chr_commands, transfer_log}

-- All that goes over the serial line, in order.
abbrev pub sent_bytes : List HostEvent → List ℕ
sent_bytes [] = []
sent_bytes (send bytes ∷ log) = bytes ++ sent_bytes log
sent_bytes (e ∷ log) = sent_bytes log

sent_bytes-append :
    (xs ys : List HostEvent) → sent_bytes (xs ++ ys) ≡ sent_bytes xs ++ sent_bytes ys
sent_bytes-append [] ys = refl
sent_bytes-append (send bytes ∷ xs) ys =
    ap (λ l. bytes ++ l) (sent_bytes-append xs ys) ∙ sym (append_assoc bytes _ _)
sent_bytes-append (message m ∷ xs) ys = sent_bytes-append xs ys
sent_bytes-append (progress a b ∷ xs) ys = sent_bytes-append xs ys
sent_bytes-append (close_file ∷ xs) ys = sent_bytes-append xs ys

sent_bytes-block_log :
    (block total t : ℕ) (cs : List Command)
    → sent_bytes (block_log block total t cs) ≡ encode_all cs
sent_bytes-block_log block total t [] = refl
sent_bytes-block_log block total t (c ∷ cs) =
    ap (λ l. encode c ++ l) (sent_bytes-block_log block total (t + block) cs)

-- The message boxes, in order.
abbrev pub messages : List HostEvent → List Message
messages [] = []
messages (message m ∷ log) = m ∷ messages log
messages (e ∷ log) = messages log

pub messages-append : (xs ys : List HostEvent) → messages (xs ++ ys) ≡ messages xs ++ messages ys
messages-append [] ys = refl
messages-append (message m ∷ xs) ys = ap (λ l. m ∷ l) (messages-append xs ys)
messages-append (send bytes ∷ xs) ys = messages-append xs ys
messages-append (progress a b ∷ xs) ys = messages-append xs ys
messages-append (close_file ∷ xs) ys = messages-append xs ys

pub messages-block_log :
    (block total t : ℕ) (cs : List Command) → messages (block_log block total t cs) ≡ []
messages-block_log block total t [] = refl
messages-block_log block total t (c ∷ cs) = messages-block_log block total (t + block) cs

-- The session between the break and `dbg_run`.
abbrev pub rom_session : Rom → List Command
rom_session r =
    Command.ppu_disable
    ∷ Command.cart_set_cfg r.prg_banks r.chr_banks r.flags6 r.flags7 r.ram_banks
    ∷ (prg_commands r
        ++ (chr_commands r ++ Command.cpu_reg_wr 0 r.pcl ∷ Command.cpu_reg_wr 1 r.pch ∷ []))

pub sent_bytes_lem :
    (r : Rom)
    → sent_bytes (transfer_log r ++ close_file ∷ [])
      ≡ encode Command.dbg_hlt ++ (encode_all (rom_session r) ++ encode Command.dbg_run)
sent_bytes_lem r =
    simp (sent_bytes-append, sent_bytes-block_log, encode_all-append, append_assoc, append-nil)
