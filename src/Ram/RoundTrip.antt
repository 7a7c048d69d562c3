-- ===== src/Ram/RoundTrip.antt =====
-- Bytes written to the memories of hw/src/nes_top.v over the host interface hw/src/hci/hci.v, and read
-- back, with the memories on the clock of the interface.
use fpga_nes.Prelude.{
  ℕ, ◌+◌, ◌*◌, ◌≤◌, ◌≡◌, refl, sym, ap, ◌∙◌, Bool, true, false, List, [], ◌∷◌, ◌++◌, append_assoc,
  append-nil, arith, All, length, get_elem?, some, ◌==◌,
}
use fpga_nes.Memory.{IsByte}
use fpga_nes.Protocol.{Command, encode}
use fpga_nes.Hci.{HciState}
use fpga_nes.Link.{Event, Board, cpu_write}
use fpga_nes.Link.Clocks.{Scratch, fpga, silent, writes}
use fpga_nes.Link.Reads.{double}
use fpga_nes.Link.Echo.{replies}
use fpga_nes.Ram.{Memories}
use fpga_nes.Ram.Stores.{stores}
use fpga_nes.Ram.Writes.{Contents, contents, put}
use fpga_nes.Ram.Words.{
  prg_or_wram, word, room, first_of, end_of, written_word, end_of-le, block_short,
}
use fpga_nes.Ram.Clocked.{machine, run_machine}
use fpga_nes.Ram.Blocks.{
  Leads, run_machine_trans, read_block, write_block, read_header, write_header,
}

put-nil : (in_prg : Bool) (cfg a : ℕ) (c : Contents) → c ≡ put cfg (prg_or_wram in_prg) a [] c
unfolding stores
put-nil true cfg a c = refl
put-nil false cfg a c = refl

module _ (b : Board) (in_prg : Bool) (err cfg : ℕ) where
  write_command :
      (p : List ℕ) (s : Scratch) (a : ℕ) (rest : List ℕ) (trace : List Event) (m : Memories)
      → first_of in_prg ≤ a
      → a + length p ≤ end_of in_prg
      → (s' : Scratch) × Leads b err cfg
          (5 + length p)
          (machine
            (fpga HciState.decode s err cfg (encode (Command.cpu_mem_wr a p) ++ rest) trace)
            m)
          (fpga HciState.decode s' err cfg rest (trace ++ writes cpu_write a p))
          (put cfg (prg_or_wram in_prg) a p (contents m))
  write_command [] s a rest trace m lo hi =
      let (m', ran, holds) = write_header b err cfg s a 0 rest trace m in
      (
        silent 4 0 a,
        (
          m',
          ran
              ∙ ap (λ es. machine (fpga HciState.decode (silent 4 0 a) err cfg rest es) m')
                  (sym (append-nil trace)),
          holds ∙ put-nil in_prg cfg a (contents m),
        ),
      )
  write_command (x ∷ p) s a rest trace m lo hi =
      let n = length (x ∷ p) in
      let nz : (n == 0) ≡ false = ground arith in
      let (m1, first, held) = write_header b err cfg s a n (x ∷ (p ++ rest)) trace m in
      let (s2, (m2, later, holds)) =
        write_block b err cfg in_prg (silent 4 n a) x p rest trace m1 refl
          (block_short in_prg a n lo hi) lo hi (end_of-le in_prg) in
      (
        s2,
        (
          m2,
          run_machine_trans b 5 n _ (rw nz at first) later,
          holds ∙ ap (put cfg (prg_or_wram in_prg) a (x ∷ p)) held,
        ),
      )

  -- The block stands in memory.
  read_command :
      (p : List ℕ) (s : Scratch) (a : ℕ) (rest : List ℕ) (trace : List Event) (m : Memories)
      (c : Contents)
      → contents m ≡ c
      → All IsByte p
      → first_of in_prg ≤ a
      → a + length p ≤ end_of in_prg
      → ((i y : ℕ) → get_elem? p i ≡ some y → word in_prg cfg c (a + i) ≡ y)
      → (s' : Scratch) × Leads b err cfg
          (5 + double (length p))
          (machine
            (fpga HciState.decode s err cfg
              (encode (Command.cpu_mem_rd a (length p)) ++ rest)
              trace)
            m)
          (fpga HciState.decode s' err cfg rest (trace ++ replies p))
          c
  read_command [] s a rest trace m c same bytes lo hi at =
      let (m', ran, holds) = read_header b err cfg s a 0 rest trace m in
      (
        silent 4 0 a,
        (
          m',
          ran
              ∙ ap (λ es. machine (fpga HciState.decode (silent 4 0 a) err cfg rest es) m')
                  (sym (append-nil trace)),
          holds ∙ same,
        ),
      )
  read_command (x ∷ p) s a rest trace m c same bytes lo hi at =
      let n = length (x ∷ p) in
      let nz : (2 * n == 0) ≡ false = ground arith in
      let (m1, first, held) = read_header b err cfg s a n rest trace m in
      let (s2, (m2, later, holds)) =
        read_block b err cfg in_prg (silent 4 (2 * n) a) x p rest trace m1 c (held ∙ same) refl
          (block_short in_prg a n lo hi) lo hi (end_of-le in_prg) bytes at in
      (s2, (m2, run_machine_trans b 5 (double n) _ (rw nz at first) later, holds))

-- A halted FPGA and its memories on one clock, with no byte late, whatever the memories hold: a block of
-- bytes that lies in the PRG-ROM or in WRAM, and is no longer than the addresses that the memory tells
-- apart, is written and then read over the serial line. After as many clocks as the two commands take
-- the interface waits for the next packet with an empty queue; it has written the block and sent back
-- exactly this block, and nothing else; and the PRG-ROM, the pattern tables and WRAM hold the block there
-- and, elsewhere, what they held.
pub write-read :
    (b : Board) (in_prg : Bool) (s : Scratch) (err cfg a : ℕ) (p : List ℕ) (trace : List Event)
    (m : Memories)
    → All IsByte p
    → first_of in_prg ≤ a
    → a + length p ≤ end_of in_prg
    → length p ≤ room in_prg cfg
    → (s' : Scratch) × (m' : Memories) × (run_machine b (5 + length p + (5 + double (length p))) (
          machine
            (fpga HciState.decode s err cfg
              (encode (Command.cpu_mem_wr a p) ++ encode (Command.cpu_mem_rd a (length p)))
              trace)
            m)
        ≡ machine
            (fpga HciState.decode s' err cfg [] (trace ++ (writes cpu_write a p ++ replies p)))
            m')
      × (contents m' ≡ put cfg (prg_or_wram in_prg) a p (contents m))
write-read b in_prg s err cfg a p trace m bytes lo hi few =
    let rd = encode (Command.cpu_mem_rd a (length p)) in
    let stored = put cfg (prg_or_wram in_prg) a p (contents m) in
    let (s1, (m1, wrote, holds)) = write_command b in_prg err cfg p s a rd trace m lo hi in
    let (s2, (m2, read, holds')) =
      read_command b in_prg err cfg p s1 a [] (trace ++ writes cpu_write a p) m1 stored holds bytes
        lo hi (λ i x. written_word in_prg cfg p a i x (contents m) lo hi few) in
    (
      s2,
      m2,
      run_machine_trans b (5 + length p) (5 + double (length p)) _ wrote read
          ∙ ap (λ es. machine (fpga HciState.decode s2 err cfg [] es) m2)
              (append_assoc trace (writes cpu_write a p) (replies p)),
      holds',
    )
