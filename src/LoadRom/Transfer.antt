-- ===== src/LoadRom/Transfer.antt =====
-- The transfer of `NesDbg::LoadRom` in sw/src/nesdbg.cpp, as a session of protocol commands.
use fpga_nes.Prelude.{
  ℕ, ◌+◌, ◌-◌, ◌*◌, ◌/◌, ◌≡◌, refl, sym, ap, ap₂, ◌∙◌, some, List, [], ◌∷◌, ◌++◌, append_assoc,
  arith, length, length-append, get_elem?,
}
use fpga_nes.Protocol.{Command, encode}
use fpga_nes.Packet.Wire.{
  dbg_hlt_packet_lem, dbg_run_packet_lem, ppu_disable_packet_lem, cart_set_cfg_packet_lem,
  cpu_mem_wr_packet_lem, ppu_mem_wr_packet_lem, cpu_reg_wr_packet_lem,
}
use fpga_nes.Host.{HostEvent, send, bind_lem}
use fpga_nes.Memory.{get_elem?-append_self}
use fpga_nes.Packet.{cpu_mem_wr_packet, ppu_mem_wr_packet}
use fpga_nes.LoadRom.{transfer, start_rom, send_roms, send_blocks, transfer_block_size}
use fpga_nes.LoadRom.Blocks.{
  send_next, send_packet_lem, block_commands, block_log, send_blocks_lem, append_three,
}

-- A ROM file of mapper 0: the header fields that the loader sends on, the two ROMs, and the reset
-- vector, which stands four bytes before the end of the PRG ROM.
pub record Rom : Type 0 where
  pub prg_banks : ℕ
  pub chr_banks : ℕ
  pub flags6 : ℕ
  pub flags7 : ℕ
  pub ram_banks : ℕ
  pub padding : List ℕ
  pub prg_body : List ℕ
  pub pcl : ℕ
  pub pch : ℕ
  pub irq_lo : ℕ
  pub irq_hi : ℕ
  pub chr : List ℕ

abbrev pub prg : Rom → List ℕ
prg r = r.prg_body ++ r.pcl ∷ r.pch ∷ r.irq_lo ∷ r.irq_hi ∷ []

abbrev pub header : Rom → List ℕ
header r =
    b'N' ∷ b'E' ∷ b'S' ∷ 0x1A ∷ r.prg_banks ∷ r.chr_banks ∷ r.flags6 ∷ r.flags7 ∷ r.ram_banks
    ∷ r.padding

-- The file in the loader's buffer, with whatever lies behind it.
abbrev pub image : Rom → List ℕ → List ℕ
image r rest = header r ++ (prg r ++ (r.chr ++ rest))

-- The sizes are those that the header states.
pub record HasSizes (r : Rom) : Type 0 where
  pub padding_size : length r.padding ≡ 7
  pub prg_size : length (prg r) ≡ r.prg_banks * 0x4000
  pub chr_size : length r.chr ≡ r.chr_banks * 0x2000

abbrev pub prg_commands : Rom → List Command
prg_commands r = block_commands Command.cpu_mem_wr 0x8000 0x400 (r.prg_banks * 16) 0 (prg r)

abbrev pub chr_commands : Rom → List Command
chr_commands r = block_commands Command.ppu_mem_wr 0 0x400 (r.chr_banks * 8) 0 r.chr

abbrev pub total_bytes : Rom → ℕ
total_bytes r = r.prg_banks * 0x4000 + r.chr_banks * 0x2000

abbrev pub start_log : Rom → List HostEvent
start_log r =
    send (encode (Command.cpu_reg_wr 0 r.pcl))
    ∷ send (encode (Command.cpu_reg_wr 1 r.pch))
    ∷ send (encode Command.dbg_run)
    ∷ []

abbrev pub setup_log : Rom → List HostEvent
setup_log r =
    send (encode Command.dbg_hlt)
    ∷ send (encode Command.ppu_disable)
    ∷ send (encode (Command.cart_set_cfg r.prg_banks r.chr_banks r.flags6 r.flags7 r.ram_banks))
    ∷ []

abbrev pub transfer_log : Rom → List HostEvent
transfer_log r =
    setup_log r
    ++ (block_log 0x400 (total_bytes r) 0 (prg_commands r)
        ++ (block_log 0x400 (total_bytes r) (r.prg_banks * 0x4000) (chr_commands r) ++ start_log r))

module _ (garbage : ℕ → ℕ) (r : Rom) (rest : List ℕ) (sizes : HasSizes r) where
  prg_sent :
      (log : List HostEvent)
      → send_blocks
          (cpu_mem_wr_packet garbage)
          0x8000
          16
          (image r rest)
          transfer_block_size
          (total_bytes r)
          (r.prg_banks * 0x4000 / transfer_block_size)
          0
          0
          log
        ≡ some (r.prg_banks * 0x4000, log ++ block_log 0x400 (total_bytes r) 0 (prg_commands r))
  prg_sent log =
      let rounds : r.prg_banks * 0x4000 / transfer_block_size ≡ r.prg_banks * 16 = omega arith in
      let bytes : 0 + r.prg_banks * 16 * 0x400 ≡ r.prg_banks * 0x4000 = omega arith in
      ap
        (λ n.
          send_blocks (cpu_mem_wr_packet garbage) 0x8000 16 (image r rest) 0x400 (total_bytes r) n 0
            0 log)
        rounds
      ∙ send_blocks_lem (cpu_mem_wr_packet garbage) Command.cpu_mem_wr
          (cpu_mem_wr_packet_lem garbage) 0x8000 16 0x400 (total_bytes r) (r.prg_banks * 16) 0 0
          (header r) (prg r) (r.chr ++ rest) log (omega (arith, sizes.padding_size))
          (omega (arith, sizes.prg_size))
      ∙ ap (λ n. some (n, log ++ block_log 0x400 (total_bytes r) 0 (prg_commands r))) bytes

  chr_sent :
      (log : List HostEvent)
      → send_blocks
          (ppu_mem_wr_packet garbage)
          0
          (16 + r.prg_banks * 0x4000)
          (image r rest)
          transfer_block_size
          (total_bytes r)
          (r.chr_banks * 0x2000 / transfer_block_size)
          0
          (r.prg_banks * 0x4000)
          log
        ≡ some (
          total_bytes r,
          log ++ block_log 0x400 (total_bytes r) (r.prg_banks * 0x4000) (chr_commands r),
        )
  chr_sent log =
      let rounds : r.chr_banks * 0x2000 / transfer_block_size ≡ r.chr_banks * 8 = omega arith in
      let bytes : r.prg_banks * 0x4000 + r.chr_banks * 8 * 0x400 ≡ total_bytes r = omega arith in
      ap₂
        (λ f n.
          send_blocks (ppu_mem_wr_packet garbage) 0 (16 + r.prg_banks * 0x4000) f 0x400
            (total_bytes r) n 0 (r.prg_banks * 0x4000) log)
        (sym (append_assoc (header r) (prg r) (r.chr ++ rest))) rounds
      ∙ send_blocks_lem (ppu_mem_wr_packet garbage) Command.ppu_mem_wr
          (ppu_mem_wr_packet_lem garbage) 0 (16 + r.prg_banks * 0x4000) 0x400 (total_bytes r)
          (r.chr_banks * 8) 0 (r.prg_banks * 0x4000) (header r ++ prg r) r.chr rest log
          (omega (arith, sizes.padding_size, sizes.prg_size, length-append (header r) (prg r)))
          (omega (arith, sizes.chr_size))
      ∙ ap
          (λ n.
            some
              (n, log ++ block_log 0x400 (total_bytes r) (r.prg_banks * 0x4000) (chr_commands r)))
          bytes

  -- The image around the reset vector.
  around :
      (front back : List ℕ)
      → prg r ≡ front ++ back
      → image r rest ≡ (header r ++ front) ++ (back ++ (r.chr ++ rest))
  around front back e =
      ap (λ p. header r ++ (p ++ (r.chr ++ rest))) e
      ∙ ap (λ p. header r ++ p) (append_assoc front back (r.chr ++ rest))
      ∙ sym (append_assoc (header r) front (back ++ (r.chr ++ rest)))

  byte_at :
      (front : List ℕ) (x : ℕ) (back : List ℕ) (i : ℕ)
      → prg r ≡ front ++ x ∷ back
      → i ≡ 16 + length front
      → get_elem? (image r rest) i ≡ some x
  byte_at front x back i e hi =
      let index : i ≡ length (header r ++ front) =
        omega (arith, hi, sizes.padding_size, length-append (header r) front) in
      ap₂ (λ l n. get_elem? l n) (around front (x ∷ back) e) index
      ∙ get_elem?-append_self (header r ++ front) x (back ++ (r.chr ++ rest))

  body_size : length r.prg_body + 4 ≡ r.prg_banks * 0x4000
  body_size =
      omega
        (arith, sizes.prg_size, length-append r.prg_body (r.pcl ∷ r.pch ∷ r.irq_lo ∷ r.irq_hi ∷ []))

  pcl_read : get_elem? (image r rest) (16 + r.prg_banks * 0x4000 - 4) ≡ some r.pcl
  pcl_read =
      byte_at r.prg_body r.pcl (r.pch ∷ r.irq_lo ∷ r.irq_hi ∷ []) _ refl (omega (arith, body_size))

  pch_read : get_elem? (image r rest) (16 + r.prg_banks * 0x4000 - 3) ≡ some r.pch
  pch_read =
      byte_at (r.prg_body ++ r.pcl ∷ []) r.pch (r.irq_lo ∷ r.irq_hi ∷ []) _
        (sym (append_assoc r.prg_body (r.pcl ∷ []) (r.pch ∷ r.irq_lo ∷ r.irq_hi ∷ [])))
        (omega (arith, body_size, length-append r.prg_body (r.pcl ∷ [])))

  start_rom_lem :
      (log : List HostEvent)
      → start_rom garbage (image r rest) (r.prg_banks * 0x4000) log ≡ some (tt, log ++ start_log r)
  unfolding start_rom
  start_rom_lem log = rw pcl_read (
      rw pch_read (
        send_next _ (Command.cpu_reg_wr 0 r.pcl) _ log (cpu_reg_wr_packet_lem garbage 0 r.pcl)
        ∙ send_next _ (Command.cpu_reg_wr 1 r.pch) _ _ (cpu_reg_wr_packet_lem garbage 1 r.pch)
        ∙ rw (dbg_run_packet_lem garbage) (send_packet_lem Command.dbg_run _)
        ∙ ap (λ l. some (tt, l))
            (append_three log (send (encode (Command.cpu_reg_wr 0 r.pcl)))
              (send (encode (Command.cpu_reg_wr 1 r.pch))) (send (encode Command.dbg_run)))))

  send_roms_lem :
      (log : List HostEvent)
      → send_roms garbage (image r rest) (r.prg_banks * 0x4000) (r.chr_banks * 0x2000) log
        ≡ some (
          total_bytes r,
          (log ++ block_log 0x400 (total_bytes r) 0 (prg_commands r))
              ++ block_log 0x400 (total_bytes r) (r.prg_banks * 0x4000) (chr_commands r),
        )
  unfolding send_roms
  send_roms_lem log =
      bind_lem
        (send_blocks (cpu_mem_wr_packet garbage) 0x8000 16 (image r rest) transfer_block_size
          (total_bytes r) (r.prg_banks * 0x4000 / transfer_block_size) 0 0)
        (λ sent.
          send_blocks (ppu_mem_wr_packet garbage) 0 (16 + r.prg_banks * 0x4000) (image r rest)
            transfer_block_size (total_bytes r) (r.chr_banks * 0x2000 / transfer_block_size) 0 sent)
        log (prg_sent log)
      ∙ chr_sent (log ++ block_log 0x400 (total_bytes r) 0 (prg_commands r))

  -- With the file behind the header that states its sizes, the transfer sends exactly the session.
  pub transfer_lem :
      transfer garbage (image r rest) r.prg_banks r.chr_banks [] ≡ some (tt, transfer_log r)
  unfolding transfer
  transfer_lem =
      let first = setup_log r in
      send_next _ Command.dbg_hlt _ [] (dbg_hlt_packet_lem garbage)
      ∙ send_next _ Command.ppu_disable _ _ (ppu_disable_packet_lem garbage)
      ∙ send_next _ (Command.cart_set_cfg r.prg_banks r.chr_banks r.flags6 r.flags7 r.ram_banks) _ _
          (cart_set_cfg_packet_lem garbage b'N' b'E' b'S' 0x1A r.prg_banks r.chr_banks r.flags6
            r.flags7 r.ram_banks _)
      ∙ bind_lem (send_roms garbage (image r rest) (r.prg_banks * 0x4000) (r.chr_banks * 0x2000))
          (λ _. start_rom garbage (image r rest) (r.prg_banks * 0x4000)) first (send_roms_lem first)
      ∙ start_rom_lem _
      ∙ ap (λ l. some (tt, l))
          (append_assoc (first ++ prg_part) chr_part (start_log r)
            ∙ append_assoc first prg_part (chr_part ++ start_log r))
    where
      prg_part : List HostEvent
      prg_part = block_log 0x400 (total_bytes r) 0 (prg_commands r)

      chr_part : List HostEvent
      chr_part = block_log 0x400 (total_bytes r) (r.prg_banks * 0x4000) (chr_commands r)
