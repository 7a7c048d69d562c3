-- ===== src/ScriptMgr/Handlers.antt =====
-- What the Lua functions of sw/src/scriptmgr.cpp send, and what they return, over any serial link.
use fpga_nes.Prelude.{
  ℕ, zero, suc, ◌+◌, ◌-◌, ◌≡◌, refl, ap, ◌∙◌, Bool, true, ◌&&◌, some, List, [], ◌∷◌, ◌++◌,
  append_assoc, arith, length, length-append, All,
}
use fpga_nes.Memory.{IsByte, u8, u16, new_bytes, length-new_bytes, write_byte, write_byte-append}
use fpga_nes.Protocol.{Command, IsWellFormed}
use fpga_nes.ScriptMgr.{LuaVm, LuaFunction, read_table}

-- The bytes of the Lua table at index `arg`, from element `i` on.
abbrev pub table_bytes : LuaVm → ℕ → ℕ → ℕ → List ℕ
table_bytes vm arg i zero = []
table_bytes vm arg i (suc n) = u8 (vm.table_number arg i) ∷ table_bytes vm arg (i + 1) n

pub length-table_bytes : (vm : LuaVm) (arg i n : ℕ) → length (table_bytes vm arg i n) ≡ n
length-table_bytes vm arg i zero = refl
length-table_bytes vm arg i (suc n) = ap suc (length-table_bytes vm arg (i + 1) n)

IsByte-table_bytes : (vm : LuaVm) (arg i n : ℕ) → All IsByte (table_bytes vm arg i n)
IsByte-table_bytes vm arg i zero = tt
IsByte-table_bytes vm arg i (suc n) = (omega arith, IsByte-table_bytes vm arg (i + 1) n)

read_table_lem :
    (vm : LuaVm) (arg i n : ℕ) (done tail : List ℕ)
    → length tail ≡ n
    → i ≡ length done + 1
    → read_table vm arg n i (done ++ tail) ≡ some (done ++ table_bytes vm arg i n)
unfolding read_table
read_table_lem vm arg i zero done [] ht hi = refl
read_table_lem vm arg i zero done (t ∷ tail) ht hi = absurd (omega arith)
read_table_lem vm arg i (suc n) done [] ht hi = absurd (omega arith)
read_table_lem vm arg i (suc n) done (t ∷ tail) ht hi =
    let v = u8 (vm.table_number arg i) in
    let place : i - 1 ≡ length done = omega arith in
    rw (ap (λ k. write_byte (done ++ t ∷ tail) k v) place ∙ write_byte-append done t v tail) (
      simp append_assoc at (
        read_table_lem vm arg (i + 1) n (done ++ v ∷ []) tail (omega arith)
          (omega (arith, length-append done (v ∷ [])))))

-- The copy into a fresh buffer of that many bytes.
pub read_table_fresh :
    (garbage : ℕ → ℕ) (vm : LuaVm) (arg n : ℕ)
    → read_table vm arg n 1 (new_bytes garbage n) ≡ some (table_bytes vm arg 1 n)
read_table_fresh garbage vm arg n =
    read_table_lem vm arg 1 n [] (new_bytes garbage n) (length-new_bytes garbage n) (omega arith)

-- Whether the arguments of a call have the types that the function asks for.
abbrev pub accepts : LuaVm → LuaFunction → Bool
accepts vm LuaFunction.echo = vm.is_number 1 && vm.is_table 2
accepts vm LuaFunction.cpu_mem_rd = vm.is_number 1 && vm.is_number 2
accepts vm LuaFunction.cpu_mem_wr = vm.is_number 1 && vm.is_number 2 && vm.is_table 3
accepts vm LuaFunction.dbg_hlt = true
accepts vm LuaFunction.dbg_run = true
accepts vm LuaFunction.cpu_reg_rd = vm.is_number 1
accepts vm LuaFunction.cpu_reg_wr = vm.is_number 1 && vm.is_number 2
accepts vm LuaFunction.ppu_mem_rd = vm.is_number 1 && vm.is_number 2
accepts vm LuaFunction.ppu_mem_wr = vm.is_number 1 && vm.is_number 2 && vm.is_table 3

-- The command that a call stands for, with its arguments cut to the widths of the packet.
abbrev pub command_of : LuaVm → LuaFunction → Command
command_of vm LuaFunction.echo = Command.echo (table_bytes vm 2 1 (u16 (vm.to_number 1)))
command_of vm LuaFunction.cpu_mem_rd =
    Command.cpu_mem_rd (u16 (vm.to_number 1)) (u16 (vm.to_number 2))
command_of vm LuaFunction.cpu_mem_wr =
    Command.cpu_mem_wr (u16 (vm.to_number 1)) (table_bytes vm 3 1 (u16 (vm.to_number 2)))
command_of vm LuaFunction.dbg_hlt = Command.dbg_hlt
command_of vm LuaFunction.dbg_run = Command.dbg_run
command_of vm LuaFunction.cpu_reg_rd = Command.cpu_reg_rd (u8 (vm.to_number 1))
command_of vm LuaFunction.cpu_reg_wr =
    Command.cpu_reg_wr (u8 (vm.to_number 1)) (u8 (vm.to_number 2))
command_of vm LuaFunction.ppu_mem_rd =
    Command.ppu_mem_rd (u16 (vm.to_number 1)) (u16 (vm.to_number 2))
command_of vm LuaFunction.ppu_mem_wr =
    Command.ppu_mem_wr (u16 (vm.to_number 1)) (table_bytes vm 3 1 (u16 (vm.to_number 2)))

pub IsWellFormed-command_of : (vm : LuaVm) (f : LuaFunction) → IsWellFormed (command_of vm f)
IsWellFormed-command_of vm LuaFunction.echo =
    let n = u16 (vm.to_number 1) in
    (omega (arith, length-table_bytes vm 2 1 n), IsByte-table_bytes vm 2 1 n)
IsWellFormed-command_of vm LuaFunction.cpu_mem_rd = (omega arith, omega arith)
IsWellFormed-command_of vm LuaFunction.cpu_mem_wr =
    let n = u16 (vm.to_number 2) in
    (omega arith, omega (arith, length-table_bytes vm 3 1 n), IsByte-table_bytes vm 3 1 n)
IsWellFormed-command_of vm LuaFunction.dbg_hlt = tt
IsWellFormed-command_of vm LuaFunction.dbg_run = tt
IsWellFormed-command_of vm LuaFunction.cpu_reg_rd = omega arith
IsWellFormed-command_of vm LuaFunction.cpu_reg_wr = (omega arith, omega arith)
IsWellFormed-command_of vm LuaFunction.ppu_mem_rd = (omega arith, omega arith)
IsWellFormed-command_of vm LuaFunction.ppu_mem_wr =
    let n = u16 (vm.to_number 2) in
    (omega arith, omega (arith, length-table_bytes vm 3 1 n), IsByte-table_bytes vm 3 1 n)
