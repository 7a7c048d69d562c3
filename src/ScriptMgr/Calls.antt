-- ===== src/ScriptMgr/Calls.antt =====
-- A call of each Lua function of sw/src/scriptmgr.cpp, over any serial link.
use fpga_nes.Prelude.{
  ℕ, ◌%◌, ◌^◌, ◌≡◌, refl, sym, ap, ap₂, ◌∙◌, Bool, true, false, not, ◌&&◌, ◌||◌, some, List, [],
  append-nil, arith, length, if◌then◌else◌,
}
use fpga_nes.Memory.{u8, u16}
use fpga_nes.Protocol.{Command, reply_length}
use fpga_nes.Packet.{echo_packet, cpu_mem_wr_packet, ppu_mem_wr_packet}
use fpga_nes.Packet.Wire.{
  packet_of, echo_packet_lem, cpu_mem_rd_packet_lem, cpu_mem_wr_packet_lem, dbg_hlt_packet_lem,
  dbg_run_packet_lem, cpu_reg_rd_packet_lem, cpu_reg_wr_packet_lem, ppu_mem_rd_packet_lem,
  ppu_mem_wr_packet_lem,
}
use fpga_nes.ScriptMgr.{
  LuaVm, Link, LuaResult, nothing, table, number, LuaFunction, lua_echo, lua_cpu_mem_rd,
  lua_cpu_mem_wr, lua_dbg_hlt, lua_dbg_run, lua_cpu_reg_rd, lua_cpu_reg_wr, lua_ppu_mem_rd,
  lua_ppu_mem_wr, call,
}
use fpga_nes.ScriptMgr.Handlers.{
  table_bytes, length-table_bytes, read_table_fresh, accepts, command_of,
}
use fpga_nes.ScriptMgr.Exchange.{
  sent, reply_of, transmit_lem, ask_table, ask_number, tell, first_or_zero,
}

-- What a call returns to Lua, given the bytes of the reply.
abbrev pub result_of : LuaFunction → List ℕ → LuaResult
result_of LuaFunction.echo bytes = table bytes
result_of LuaFunction.cpu_mem_rd bytes = table bytes
result_of LuaFunction.ppu_mem_rd bytes = table bytes
result_of LuaFunction.cpu_reg_rd bytes = number (first_or_zero bytes)
result_of _ bytes = nothing

abbrev pub reads_reply : LuaFunction → Bool
reads_reply LuaFunction.echo = true
reads_reply LuaFunction.cpu_mem_rd = true
reads_reply LuaFunction.ppu_mem_rd = true
reads_reply LuaFunction.cpu_reg_rd = true
reads_reply _ = false

module _ (debug : Bool) (garbage : ℕ → ℕ) {W : Type 0} (link : Link W) (vm : LuaVm) where
  -- The value for Lua and the link after a call.
  abbrev pub served : LuaFunction → W → LuaResult × W
  served f w =
      let c = command_of vm f in
      if reads_reply f
      then (result_of f (reply_of debug garbage link c w).0, (reply_of debug garbage link c w).1)
      else (nothing, sent debug garbage link c w)

  -- `static_cast<BYTE>` after `static_cast<UINT>`.
  u8-u32 : (v : ℕ) → u8 (v % 2 ^ 32) ≡ u8 v
  u8-u32 v = omega arith

  echo_made :
      (n : ℕ)
      → echo_packet garbage (table_bytes vm 2 1 n) n
        ≡ some (packet_of (Command.echo (table_bytes vm 2 1 n)))
  echo_made n =
      let payload = table_bytes vm 2 1 n in
      ap₂ (echo_packet garbage) (sym (append-nil payload)) (sym (length-table_bytes vm 2 1 n))
      ∙ echo_packet_lem garbage payload []

  cpu_mem_wr_made :
      (addr n : ℕ)
      → cpu_mem_wr_packet garbage addr n (table_bytes vm 3 1 n)
        ≡ some (packet_of (Command.cpu_mem_wr addr (table_bytes vm 3 1 n)))
  cpu_mem_wr_made addr n =
      let payload = table_bytes vm 3 1 n in
      ap₂ (cpu_mem_wr_packet garbage addr) (sym (length-table_bytes vm 3 1 n))
        (sym (append-nil payload))
      ∙ cpu_mem_wr_packet_lem garbage addr payload []

  ppu_mem_wr_made :
      (addr n : ℕ)
      → ppu_mem_wr_packet garbage addr n (table_bytes vm 3 1 n)
        ≡ some (packet_of (Command.ppu_mem_wr addr (table_bytes vm 3 1 n)))
  ppu_mem_wr_made addr n =
      let payload = table_bytes vm 3 1 n in
      ap₂ (ppu_mem_wr_packet garbage addr) (sym (length-table_bytes vm 3 1 n))
        (sym (append-nil payload))
      ∙ ppu_mem_wr_packet_lem garbage addr payload []

guard2 : (p q : Bool) → (not p || not q) ≡ not (p && q)
guard2 p q = ground arith

guard3 : (p q u : Bool) → (not p || not q || not u) ≡ not (p && q && u)
guard3 p q u = ground arith

-- A call with arguments of the right types, on a link that returns as many bytes as it is asked for:
-- it sends the packet of its command, with the numbers cut to the packet's fields and the payload
-- copied from the Lua table, and nothing else; it asks for the reply that the protocol promises for
-- that command, if there is one, and hands it to Lua; no buffer is overrun and no assertion fails.
pub call_lem :
    (debug : Bool) (garbage : ℕ → ℕ) {W : Type 0} (link : Link W) (vm : LuaVm) (f : LuaFunction)
    (w : W)
    → accepts vm f ≡ true
    → length (reply_of debug garbage link (command_of vm f) w).0 ≡ reply_length (command_of vm f)
    → call debug garbage link vm f w ≡ some (served debug garbage link vm f w)
unfolding call lua_echo lua_cpu_mem_rd lua_cpu_mem_wr lua_dbg_hlt lua_dbg_run lua_cpu_reg_rd
    lua_cpu_reg_wr lua_ppu_mem_rd lua_ppu_mem_wr
call_lem debug garbage link vm LuaFunction.echo w ok h =
    let n = u16 (vm.to_number 1) in
    rw (guard2 (vm.is_number 1) (vm.is_table 2) ∙ ap not ok) (
      rw (read_table_fresh garbage vm 2 n) (
        ask_table debug garbage link (echo_packet garbage (table_bytes vm 2 1 n) n)
          (Command.echo (table_bytes vm 2 1 n)) w (echo_made debug garbage link vm n) h))
call_lem debug garbage link vm LuaFunction.cpu_mem_rd w ok h =
    rw (guard2 (vm.is_number 1) (vm.is_number 2) ∙ ap not ok) (
      ask_table debug garbage link _ (command_of vm LuaFunction.cpu_mem_rd) w
        (cpu_mem_rd_packet_lem garbage _ _) h)
call_lem debug garbage link vm LuaFunction.ppu_mem_rd w ok h =
    rw (guard2 (vm.is_number 1) (vm.is_number 2) ∙ ap not ok) (
      ask_table debug garbage link _ (command_of vm LuaFunction.ppu_mem_rd) w
        (ppu_mem_rd_packet_lem garbage _ _) h)
call_lem debug garbage link vm LuaFunction.cpu_mem_wr w ok h =
    let n = u16 (vm.to_number 2) in
    rw (guard3 (vm.is_number 1) (vm.is_number 2) (vm.is_table 3) ∙ ap not ok) (
      rw (read_table_fresh garbage vm 3 n) (
        tell debug garbage link _ (command_of vm LuaFunction.cpu_mem_wr) w
          (cpu_mem_wr_made debug garbage link vm _ n) refl))
call_lem debug garbage link vm LuaFunction.ppu_mem_wr w ok h =
    let n = u16 (vm.to_number 2) in
    rw (guard3 (vm.is_number 1) (vm.is_number 2) (vm.is_table 3) ∙ ap not ok) (
      rw (read_table_fresh garbage vm 3 n) (
        tell debug garbage link _ (command_of vm LuaFunction.ppu_mem_wr) w
          (ppu_mem_wr_made debug garbage link vm _ n) refl))
call_lem debug garbage link vm LuaFunction.dbg_hlt w ok h =
    rw (dbg_hlt_packet_lem garbage) (rw (transmit_lem debug garbage link Command.dbg_hlt w))
call_lem debug garbage link vm LuaFunction.dbg_run w ok h =
    rw (dbg_run_packet_lem garbage) (rw (transmit_lem debug garbage link Command.dbg_run w))
call_lem debug garbage link vm LuaFunction.cpu_reg_rd w ok h =
    let v = vm.to_number 1 in
    rw (ap not ok) (
      ask_number debug garbage link _ (command_of vm LuaFunction.cpu_reg_rd) w
        (cpu_reg_rd_packet_lem garbage (v % 2 ^ 32)
          ∙ ap (λ r. some (packet_of (Command.cpu_reg_rd r))) (u8-u32 debug garbage link vm v))
        refl h)
call_lem debug garbage link vm LuaFunction.cpu_reg_wr w ok h =
    let v = vm.to_number 1 in
    rw (guard2 (vm.is_number 1) (vm.is_number 2) ∙ ap not ok) (
      tell debug garbage link _ (command_of vm LuaFunction.cpu_reg_wr) w
        (cpu_reg_wr_packet_lem garbage (v % 2 ^ 32) _
          ∙ ap (λ r. some (packet_of (Command.cpu_reg_wr r (u8 (vm.to_number 2)))))
              (u8-u32 debug garbage link vm v))
        refl)

-- A call with an argument of the wrong type, in a release build: nothing is sent, nothing is received,
-- and Lua gets no value.
pub call-rejected :
    (garbage : ℕ → ℕ) {W : Type 0} (link : Link W) (vm : LuaVm) (f : LuaFunction) (w : W)
    → accepts vm f ≡ false
    → call false garbage link vm f w ≡ some (nothing, w)
unfolding call lua_echo lua_cpu_mem_rd lua_cpu_mem_wr lua_cpu_reg_rd lua_cpu_reg_wr lua_ppu_mem_rd
    lua_ppu_mem_wr
call-rejected garbage link vm LuaFunction.echo w bad =
    rw (guard2 (vm.is_number 1) (vm.is_table 2) ∙ ap not bad)
call-rejected garbage link vm LuaFunction.cpu_mem_rd w bad =
    rw (guard2 (vm.is_number 1) (vm.is_number 2) ∙ ap not bad)
call-rejected garbage link vm LuaFunction.ppu_mem_rd w bad =
    rw (guard2 (vm.is_number 1) (vm.is_number 2) ∙ ap not bad)
call-rejected garbage link vm LuaFunction.cpu_mem_wr w bad =
    rw (guard3 (vm.is_number 1) (vm.is_number 2) (vm.is_table 3) ∙ ap not bad)
call-rejected garbage link vm LuaFunction.ppu_mem_wr w bad =
    rw (guard3 (vm.is_number 1) (vm.is_number 2) (vm.is_table 3) ∙ ap not bad)
call-rejected garbage link vm LuaFunction.cpu_reg_wr w bad =
    rw (guard2 (vm.is_number 1) (vm.is_number 2) ∙ ap not bad)
call-rejected garbage link vm LuaFunction.cpu_reg_rd w bad = rw (ap not bad)
call-rejected garbage link vm LuaFunction.dbg_hlt w bad = absurd (cc)
call-rejected garbage link vm LuaFunction.dbg_run w bad = absurd (cc)
