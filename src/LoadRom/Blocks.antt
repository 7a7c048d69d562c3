-- ===== src/LoadRom/Blocks.antt =====
-- The transfer loop of `NesDbg::LoadRom` in sw/src/nesdbg.cpp, block by block.
use fpga_nes.Prelude.{
  ℕ, zero, suc, ◌+◌, ◌*◌, ◌≡◌, refl, sym, ap, ap₂, ◌∙◌, Option, some, List, [], ◌∷◌, ◌++◌,
  append-nil, append_assoc, arith, length, length-append, length-take, length-drop,
  take-append-drop, take, drop,
}
use fpga_nes.Memory.{u16}
use fpga_nes.Protocol.{Command, encode}
use fpga_nes.Packet.{DbgPacket}
use fpga_nes.Packet.Wire.{packet_of, size_in_bytes-packet_of}
use fpga_nes.Host.{
  Host, HostEvent, send, progress, ◌>>=◌, ◌>>◌, lift, tell, bind_lem, prefix?-length, send_packet,
}
use fpga_nes.LoadRom.{send_blocks}

-- Sending a packet hands its bytes to the serial port.
pub send_packet_lem :
    (c : Command) (log : List HostEvent)
    → send_packet (packet_of c) log ≡ some (tt, log ++ send (encode c) ∷ [])
unfolding send_packet
send_packet_lem c log = rw (size_in_bytes-packet_of c, prefix?-length (encode c))

-- A packet is made and sent, and the handler goes on.
pub send_next {ℓ} :
    {B : Type ℓ} (o : Option DbgPacket) (c : Command) (k : Host B) (log : List HostEvent)
    → o ≡ some (packet_of c)
    → (do p ← lift o; send_packet p; k) log ≡ k (log ++ send (encode c) ∷ [])
send_next o c k log e =
    rw e (bind_lem (send_packet (packet_of c)) (λ _. k) log (send_packet_lem c log))

-- The commands that carry `rounds` blocks of `rom`, from block `i` on.
abbrev pub block_commands : (ℕ → List ℕ → Command) → ℕ → ℕ → ℕ → ℕ → List ℕ → List Command
block_commands mk base_addr block zero i rom = []
block_commands mk base_addr block (suc rounds) i rom =
    mk (u16 (base_addr + block * i)) (take block rom)
    ∷ block_commands mk base_addr block rounds (i + 1) (drop block rom)

-- What the host does for them: a packet, then the progress bar.
abbrev pub block_log : ℕ → ℕ → ℕ → List Command → List HostEvent
block_log block total t [] = []
block_log block total t (c ∷ cs) =
    send (encode c) ∷ progress (t + block) total ∷ block_log block total (t + block) cs

append_two {ℓ} :
    {A : Type ℓ} (xs : List A) (x y : A) (ys : List A)
    → ((xs ++ x ∷ []) ++ y ∷ []) ++ ys ≡ xs ++ x ∷ y ∷ ys
append_two xs x y ys = append_assoc (xs ++ x ∷ []) (y ∷ []) ys ∙ append_assoc xs (x ∷ []) (y ∷ ys)

pub append_three {ℓ} :
    {A : Type ℓ} (xs : List A) (x y z : A)
    → ((xs ++ x ∷ []) ++ y ∷ []) ++ z ∷ [] ≡ xs ++ x ∷ y ∷ z ∷ []
append_three xs x y z = append_two xs x y (z ∷ [])

drop-append {ℓ} : {A : Type ℓ} (xs ys : List A) → drop (length xs) (xs ++ ys) ≡ ys
drop-append [] ys = refl
drop-append (x ∷ xs) ys = drop-append xs ys

module _ (make : ℕ → ℕ → List ℕ → Option DbgPacket) (mk : ℕ → List ℕ → Command)
    (made : (addr : ℕ) (payload extra : List ℕ)
      → make addr (length payload) (payload ++ extra) ≡ some (packet_of (mk addr payload)))
    (base_addr base_offset block total : ℕ) where
  -- The loop in the middle of its run, with `behind` already passed.
  pub send_blocks_lem :
      (rounds i t : ℕ) (behind rom rest : List ℕ) (log : List HostEvent)
      → length behind ≡ base_offset + block * i
      → length rom ≡ rounds * block
      → send_blocks make base_addr base_offset (behind ++ (rom ++ rest)) block total rounds i t log
        ≡ some (
          t + rounds * block,
          log ++ block_log block total t (block_commands mk base_addr block rounds i rom),
        )
  unfolding send_blocks
  send_blocks_lem zero i t behind rom rest log hb hr =
      ap₂ (λ n l. some (n, l)) (omega arith) (sym (append-nil log))
  send_blocks_lem (suc rounds) i t behind rom rest log hb hr =
      send_next (make addr block (drop (base_offset + block * i) (behind ++ (rom ++ rest)))) c
        (do
          tell (progress (t + block) total)
          send_blocks make base_addr base_offset (behind ++ (rom ++ rest)) block total rounds
              (i + 1) (t + block))
        log next
      ∙ ap
          (λ f.
            send_blocks make base_addr base_offset f block total rounds (i + 1) (t + block) log')
          moved
      ∙ send_blocks_lem rounds (i + 1) (t + block) (behind ++ chunk) later rest log'
          (omega (arith, length-append behind chunk, chunk_length))
          (omega (arith, length-drop block rom))
      ∙ ap₂ (λ n l. some (n, l)) (omega arith)
          (append_two log (send (encode c)) (progress (t + block) total) (
            block_log block total (t + block)
              (block_commands mk base_addr block rounds (i + 1) later)))
    where
      addr : ℕ
      addr = u16 (base_addr + block * i)

      chunk : List ℕ
      chunk = take block rom

      later : List ℕ
      later = drop block rom

      c : Command
      c = mk addr chunk

      log' : List HostEvent
      log' = (log ++ send (encode c) ∷ []) ++ progress (t + block) total ∷ []

      chunk_length : length chunk ≡ block
      chunk_length = length-take block rom (omega arith)

      split : rom ++ rest ≡ chunk ++ (later ++ rest)
      split = ap (λ r. r ++ rest) (sym (take-append-drop block rom)) ∙ append_assoc chunk later rest

      moved : behind ++ (rom ++ rest) ≡ (behind ++ chunk) ++ (later ++ rest)
      moved = ap (λ r. behind ++ r) split ∙ sym (append_assoc behind chunk (later ++ rest))

      next :
          make addr block (drop (base_offset + block * i) (behind ++ (rom ++ rest)))
          ≡ some (packet_of c)
      next =
          ap (λ n. make addr block (drop n (behind ++ (rom ++ rest)))) (sym hb)
          ∙ ap (make addr block) (drop-append behind (rom ++ rest) ∙ split)
          ∙ ap (λ n. make addr n (chunk ++ (later ++ rest))) (sym chunk_length)
          ∙ made addr chunk (later ++ rest)
