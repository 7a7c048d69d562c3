-- ===== src/ScriptMgr.antt =====
-- The Lua functions of sw/src/scriptmgr.cpp that talk to the FPGA. The Lua machine and the serial
-- link are arguments: `LuaVm` is what the C interface of Lua returns for the arguments of the call (a
-- number is converted by truncation and is not negative; a missing table element is the number that
-- Lua converts nil to), `Link` is what a transmission and a reception do. A run is `none` where the
-- code does not come back: a failed assertion of a debug build, or an access outside a buffer.
pub mod Handlers
pub mod Exchange
pub mod Calls
pub mod Halted
pub mod Session
pub mod Wait
pub mod Asm
use fpga_nes.Prelude.{
  ℕ, zero, suc, ◌+◌, ◌-◌, ◌*◌, ◌%◌, ◌^◌, Bool, true, false, not, ◌&&◌, ◌||◌, Option, none, some,
  List, [], ◌∷◌, ◌++◌, ◌==◌, length, drop, get_elem?, bit_or, if◌then◌else◌, ◌>>=◌,
}
use fpga_nes.Memory.{u8, u16, new_bytes, write_byte}
use fpga_nes.Packet.{
  DbgPacket, echo_packet, cpu_mem_rd_packet, cpu_mem_wr_packet, dbg_hlt_packet, dbg_run_packet,
  cpu_reg_rd_packet, cpu_reg_wr_packet, query_hlt_packet, ppu_mem_rd_packet, ppu_mem_wr_packet,
  size_in_bytes, return_bytes_expected,
}
use fpga_nes.Host.{prefix?}

-- `table_number arg i` is the number in element `i` of the table at index `arg`.
pub record LuaVm : Type 0 where
  pub is_number : ℕ → Bool
  pub is_table : ℕ → Bool
  pub is_string : ℕ → Bool
  pub to_number : ℕ → ℕ
  pub table_number : ℕ → ℕ → ℕ

-- The serial link, from the program's side: `receive n` returns the bytes that came in time.
pub record Link (W : Type 0) : Type 0 where
  pub send : List ℕ → W → W
  pub receive : ℕ → W → List ℕ × W

-- What a function pushes for Lua.
pub data LuaResult : Type 0 where
  nothing : LuaResult
  table : List ℕ → LuaResult
  number : ℕ → LuaResult

-- The functions of the library "nesdbg" that send one packet.
pub data LuaFunction : Type 0 where
  echo cpu_mem_rd cpu_mem_wr dbg_hlt dbg_run cpu_reg_rd cpu_reg_wr ppu_mem_rd ppu_mem_wr :
      LuaFunction

module _ (vm : LuaVm) where
  -- The loop that copies the Lua table at index `arg`, from element `i` on.
  pub read_table : ℕ → ℕ → ℕ → List ℕ → Option (List ℕ)
  read_table arg zero i buffer = some buffer
  read_table arg (suc rounds) i buffer = do
    m ← write_byte buffer (i - 1) (u8 (vm.table_number arg i))
    read_table arg rounds (i + 1) m

module _ (debug : Bool) (garbage : ℕ → ℕ) {W : Type 0} (link : Link W) where
  -- `SendData(packet.PacketData(), packet.SizeInBytes())`
  abbrev pub transmit : DbgPacket → W → Option W
  transmit p w = do n ← size_in_bytes p; bytes ← prefix? n p.bytes; some (link.send bytes w)

  -- `ReceiveData(buffer, n)`, with its assertion: what was not received is what the buffer held before.
  abbrev pub receive_into : ℕ → List ℕ → W → Option (List ℕ × W)
  receive_into n buffer w =
      let (bytes, w') = link.receive n w in
      if debug && not (length bytes == n)
      then none
      else some (bytes ++ drop (length bytes) buffer, w')

  -- A fresh buffer of `ReturnBytesExpected` bytes, and a reception into it.
  abbrev pub receive_reply : DbgPacket → W → Option (List ℕ × W)
  receive_reply p w = do n ← return_bytes_expected p; receive_into n (new_bytes garbage n) w

  -- `assert(packet.ReturnBytesExpected() == 0)`
  abbrev pub assert_no_reply : DbgPacket → Option (Unit {0})
  assert_no_reply p = do
    n ← return_bytes_expected p
    if debug && not (n == 0) then none else some tt

  -- `assert(0); return 0;`
  abbrev pub reject : W → Option (LuaResult × W)
  reject w = if debug then none else some (nothing, w)

  module _ (vm : LuaVm) where
    pub lua_echo : W → Option (LuaResult × W)
    lua_echo w = if not (vm.is_number 1) || not (vm.is_table 2) then reject w else (do
      let num_bytes = u16 (vm.to_number 1)
      echo_data ← read_table vm 2 num_bytes 1 (new_bytes garbage num_bytes)
      p ← echo_packet garbage echo_data num_bytes
      w ← transmit p w
      (received, w) ← receive_reply p w
      n ← return_bytes_expected p
      values ← prefix? n received
      some (table values, w))

    pub lua_cpu_mem_rd : W → Option (LuaResult × W)
    lua_cpu_mem_rd w = if not (vm.is_number 1) || not (vm.is_number 2) then reject w else (do
      p ← cpu_mem_rd_packet garbage (u16 (vm.to_number 1)) (u16 (vm.to_number 2))
      w ← transmit p w
      (received, w) ← receive_reply p w
      n ← return_bytes_expected p
      values ← prefix? n received
      some (table values, w))

    pub lua_cpu_mem_wr : W → Option (LuaResult × W)
    lua_cpu_mem_wr w =
        if not (vm.is_number 1) || not (vm.is_number 2) || not (vm.is_table 3)
        then reject w
        else (do
          let addr = u16 (vm.to_number 1)
          let num_bytes = u16 (vm.to_number 2)
          payload ← read_table vm 3 num_bytes 1 (new_bytes garbage num_bytes)
          p ← cpu_mem_wr_packet garbage addr num_bytes payload
          w ← transmit p w
          _ ← assert_no_reply p
          some (nothing, w))

    pub lua_dbg_hlt : W → Option (LuaResult × W)
    lua_dbg_hlt w = do p ← dbg_hlt_packet garbage; w ← transmit p w; some (nothing, w)

    pub lua_dbg_run : W → Option (LuaResult × W)
    lua_dbg_run w = do p ← dbg_run_packet garbage; w ← transmit p w; some (nothing, w)

    pub lua_cpu_reg_rd : W → Option (LuaResult × W)
    lua_cpu_reg_rd w = if not (vm.is_number 1) then reject w else (do
      p ← cpu_reg_rd_packet garbage (vm.to_number 1 % 2 ^ 32)
      w ← transmit p w
      (received, w) ← receive_reply p w
      v ← get_elem? received 0
      some (number v, w))

    pub lua_cpu_reg_wr : W → Option (LuaResult × W)
    lua_cpu_reg_wr w = if not (vm.is_number 1) || not (vm.is_number 2) then reject w else (do
      p ← cpu_reg_wr_packet garbage (vm.to_number 1 % 2 ^ 32) (u8 (vm.to_number 2))
      w ← transmit p w
      _ ← assert_no_reply p
      some (nothing, w))

    pub lua_ppu_mem_rd : W → Option (LuaResult × W)
    lua_ppu_mem_rd w = if not (vm.is_number 1) || not (vm.is_number 2) then reject w else (do
      p ← ppu_mem_rd_packet garbage (u16 (vm.to_number 1)) (u16 (vm.to_number 2))
      w ← transmit p w
      (received, w) ← receive_reply p w
      n ← return_bytes_expected p
      values ← prefix? n received
      some (table values, w))

    pub lua_ppu_mem_wr : W → Option (LuaResult × W)
    lua_ppu_mem_wr w =
        if not (vm.is_number 1) || not (vm.is_number 2) || not (vm.is_table 3)
        then reject w
        else (do
          let addr = u16 (vm.to_number 1)
          let num_bytes = u16 (vm.to_number 2)
          payload ← read_table vm 3 num_bytes 1 (new_bytes garbage num_bytes)
          p ← ppu_mem_wr_packet garbage addr num_bytes payload
          w ← transmit p w
          _ ← assert_no_reply p
          some (nothing, w))

    -- The table of the library.
    unfoldable pub call : LuaFunction → W → Option (LuaResult × W)
    call LuaFunction.echo = lua_echo
    call LuaFunction.cpu_mem_rd = lua_cpu_mem_rd
    call LuaFunction.cpu_mem_wr = lua_cpu_mem_wr
    call LuaFunction.dbg_hlt = lua_dbg_hlt
    call LuaFunction.dbg_run = lua_dbg_run
    call LuaFunction.cpu_reg_rd = lua_cpu_reg_rd
    call LuaFunction.cpu_reg_wr = lua_cpu_reg_wr
    call LuaFunction.ppu_mem_rd = lua_ppu_mem_rd
    call LuaFunction.ppu_mem_wr = lua_ppu_mem_wr
