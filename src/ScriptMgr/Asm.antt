-- ===== src/ScriptMgr/Asm.antt =====
-- `ScriptMgr::LuaLoadAsm` of sw/src/scriptmgr.cpp: a program file is written to the CPU's memory, at
-- the address in its first two bytes.
use fpga_nes.Prelude.{
  ℕ, ◌+◌, ◌-◌, ◌*◌, ◌^◌, ◌≤◌, ◌≡◌, refl, ap, ◌∙◌, Bool, true, not, Option, some, none, List, [],
  ◌∷◌, ◌++◌, arith, length, get_elem?, drop, bit_or, if◌then◌else◌, ◌>>=◌,
}
use fpga_nes.Prelude.Bits.{join_bytes}
use fpga_nes.Memory.{IsByte, u16}
use fpga_nes.Protocol.{Command, encode}
use fpga_nes.Packet.{cpu_mem_wr_packet}
use fpga_nes.Packet.Wire.{cpu_mem_wr_packet_lem, cpu_mem_wr_packet_overrun}
use fpga_nes.ScriptMgr.{LuaVm, Link, LuaResult, number, transmit, assert_no_reply, reject}
use fpga_nes.ScriptMgr.Exchange.{transmit_lem, assert_no_reply_lem}

-- The message boxes.
pub data AsmMessage : Type 0 where
  asm_read_failed asm_open_failed : AsmMessage

-- What Windows answers: `buffer` is the memory of 0x10000 bytes after the read, `actual_size` the
-- number of bytes of the file in it.
pub record PrgFile : Type 0 where
  pub opened : Bool
  pub read_ok : Bool
  pub buffer : List ℕ
  pub actual_size : ℕ

module _ (debug : Bool) (garbage : ℕ → ℕ) {W : Type 0} (link : Link W) where
  -- What follows a file that was read.
  pub send_prg : PrgFile → W → Option (ℕ × W)
  send_prg f w = do
    lo ← get_elem? f.buffer 0
    hi ← get_elem? f.buffer 1
    let start_pc = u16 (bit_or lo (hi * 2 ^ 8))
    p ← cpu_mem_wr_packet garbage start_pc (u16 (f.actual_size + 2 ^ 32 - 2)) (drop 2 f.buffer)
    w' ← transmit debug garbage link p w
    _ ← assert_no_reply debug garbage link p
    some (start_pc, w')

  unfoldable pub lua_load_asm : LuaVm → PrgFile → W → Option (LuaResult × List AsmMessage × W)
  lua_load_asm vm f w =
      if not (vm.is_string 1)
      then (do (r, w') ← reject debug garbage link w; some (r, [], w'))
      else if not f.opened
      then some (number 0, asm_open_failed ∷ [], w)
      else if not f.read_ok
      then some (number 0, asm_read_failed ∷ [], w)
      else (do (start_pc, w') ← send_prg f w; some (number start_pc, [], w'))

-- A program in memory, with whatever lies behind it in the buffer.
abbrev pub prg_file : ℕ → ℕ → List ℕ → List ℕ → PrgFile
prg_file lo hi code rest = record {
  opened = true;
  read_ok = true;
  buffer = lo ∷ hi ∷ (code ++ rest);
  actual_size = 2 + length code;
}

-- A file of at least two bytes: its code, all of it and nothing behind it, is sent once, to be written
-- from the address on that the first two bytes hold, low byte first; Lua gets that address; no message
-- is shown, no buffer is overrun and no assertion fails.
pub lua_load_asm-sends :
    (debug : Bool) (garbage : ℕ → ℕ) {W : Type 0} (link : Link W) (vm : LuaVm) (lo hi : ℕ)
    (code rest : List ℕ) (w : W)
    → vm.is_string 1 ≡ true
    → IsByte lo
    → IsByte hi
    → length code ≤ 65534
    → lua_load_asm debug garbage link vm (prg_file lo hi code rest) w
      ≡ some (
        number (lo + hi * 256),
        [],
        link.send (encode (Command.cpu_mem_wr (lo + hi * 256) code)) w,
      )
unfolding lua_load_asm send_prg
lua_load_asm-sends debug garbage link vm lo hi code rest w named hl hh fits =
    let addr : u16 (bit_or lo (hi * 256)) ≡ lo + hi * 256 = omega (arith, join_bytes lo hi hl hh) in
    let count : u16 (2 + length code + 2 ^ 32 - 2) ≡ length code = omega arith in
    let c = Command.cpu_mem_wr (lo + hi * 256) code in
    rw named (
      rw addr (
        rw
          (ap (λ n. cpu_mem_wr_packet garbage (lo + hi * 256) n (code ++ rest)) count
            ∙ cpu_mem_wr_packet_lem garbage (lo + hi * 256) code rest)
          (rw (transmit_lem debug garbage link c w)
            (rw (assert_no_reply_lem debug garbage link c refl)))))

-- A file of one byte: the count wraps to 65535, more than the buffer of 65536 bytes holds behind its
-- first two, and the packet's constructor reads past its end.
pub lua_load_asm-short :
    (debug : Bool) (garbage : ℕ → ℕ) {W : Type 0} (link : Link W) (vm : LuaVm) (lo hi : ℕ)
    (rest : List ℕ) (w : W)
    → vm.is_string 1 ≡ true
    → length rest ≡ 65534
    → lua_load_asm debug garbage link vm
        (record { opened = true; read_ok = true; buffer = lo ∷ hi ∷ rest; actual_size = 1 })
        w
      ≡ none
unfolding lua_load_asm send_prg
lua_load_asm-short debug garbage link vm lo hi rest w named size =
    rw named
      (rw (cpu_mem_wr_packet_overrun garbage (u16 (bit_or lo (hi * 256))) rest 65535 (omega arith)))
