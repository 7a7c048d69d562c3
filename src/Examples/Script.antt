-- ===== src/Examples/Script.antt =====
-- The Lua functions on concrete inputs.
use fpga_nes.Prelude.{
  ℕ, zero, suc, ◌≡◌, ◌≢◌, ◌<◌, refl, ap, true, false, some, none, List, [], ◌∷◌, arith, length,
}
use fpga_nes.Hci.{HciState}
use fpga_nes.Link.{reply, reg_write}
use fpga_nes.Link.Clocks.{Scratch, fpga}
use fpga_nes.ScriptMgr.{LuaVm, Link, nothing, table, number, LuaFunction, call}
use fpga_nes.ScriptMgr.Calls.{call_lem}
use fpga_nes.ScriptMgr.Halted.{fpga_link, call-halted}
use fpga_nes.ScriptMgr.Session.{LuaCall, run_calls, run_calls-halted}
use fpga_nes.ScriptMgr.Wait.{asked, after_queries, lua_wait_for_hlt, lua_wait_for_hlt-returns}
use fpga_nes.ScriptMgr.Asm.{prg_file, lua_load_asm, lua_load_asm-sends, lua_load_asm-short}
use fpga_nes.Examples.{board, idle, garbage, vm, budget}

-- Echo of the two elements 0x11 and 0x112, of which the second is cut to a byte.
call-halted_example :
    (s' : Scratch) × (call true garbage
        (fpga_link board budget)
        vm
        LuaFunction.echo
        (fpga HciState.decode idle 0 0 [] [], 0)
      ≡ some (
        table (0x11 ∷ 0x12 ∷ []),
        (fpga HciState.decode s' 0 0 [] (reply 0x11 ∷ reply 0x12 ∷ []), 2),
      ))
call-halted_example =
    call-halted true garbage board budget vm LuaFunction.echo idle 0 0 [] refl refl

-- A register is written, and one is read.
abbrev calls : List LuaCall
calls =
    record { vm = vm; function = LuaFunction.cpu_reg_wr }
    ∷ record { vm = vm; function = LuaFunction.cpu_reg_rd }
    ∷ []

run_calls-halted_example :
    (s' : Scratch) × (run_calls true garbage
        (fpga_link board budget)
        calls
        (fpga HciState.decode idle 0 0 [] [], 0)
      ≡ some (
        nothing ∷ number 0x42 ∷ [],
        (fpga HciState.decode s' 0 0 [] (reg_write 2 2 ∷ reply 0x42 ∷ []), 1),
      ))
run_calls-halted_example =
    run_calls-halted true garbage board budget calls idle 0 0 []
      ((refl, refl, tt), ((refl, refl, tt), tt))

abbrev answer : List (List ℕ) → List ℕ
answer [] = []
answer (x ∷ []) = 0 ∷ []
answer (x ∷ y ∷ more) = 1 ∷ []

-- A link that records what is sent and answers 0 to the first query and 1 to the others.
abbrev recorder : Link (List (List ℕ))
recorder = record { send = λ bytes w. bytes ∷ w; receive = λ n w. (answer w, w) }

call_lem_example :
    call true garbage recorder vm LuaFunction.cpu_reg_rd []
    ≡ some (number 0, (0x05 ∷ 0x02 ∷ []) ∷ [])
call_lem_example = call_lem true garbage recorder vm LuaFunction.cpu_reg_rd [] refl refl

-- A call without arguments.
abbrev no_arguments : LuaVm
no_arguments = record {
  is_number = λ arg. false;
  is_table = λ arg. false;
  is_string = λ arg. false;
  to_number = λ arg. 0;
  table_number = λ arg i. 0;
}

running_once :
    (i : ℕ)
    → i < 1
    → (asked true garbage recorder (after_queries true garbage recorder i [])).0 ≡ 0 ∷ []
running_once zero h = refl
running_once (suc i) h = absurd (omega arith)

abbrev halted : ℕ
halted = 1

one_is_halted : halted ≢ 0
one_is_halted e = absurd (omega arith)

lua_wait_for_hlt-returns_example :
    lua_wait_for_hlt true garbage recorder 2 [] ≡ some (true, (0x07 ∷ []) ∷ (0x07 ∷ []) ∷ [])
lua_wait_for_hlt-returns_example =
    lua_wait_for_hlt-returns true garbage recorder 1 1 [] running_once refl one_is_halted

lua_load_asm-sends_example :
    lua_load_asm true garbage recorder vm (prg_file 0x00 0x80 (0xEA ∷ []) (0xCD ∷ [])) []
    ≡ some (number 0x8000, [], (0x02 ∷ 0x00 ∷ 0x80 ∷ 0x01 ∷ 0x00 ∷ 0xEA ∷ []) ∷ [])
lua_load_asm-sends_example =
    lua_load_asm-sends true garbage recorder vm 0x00 0x80 (0xEA ∷ []) (0xCD ∷ []) [] refl
      (omega arith) (omega arith) (omega arith)

zeros : ℕ → List ℕ
zeros zero = []
zeros (suc n) = 0 ∷ zeros n

length-zeros : (n : ℕ) → length (zeros n) ≡ n
unfolding zeros
length-zeros zero = refl
length-zeros (suc n) = ap suc (length-zeros n)

lua_load_asm-short_example :
    lua_load_asm true garbage recorder vm
      (record {
        opened = true;
        read_ok = true;
        buffer = 0x60 ∷ 0x00 ∷ zeros 65534;
        actual_size = 1;
      })
      []
    ≡ none
lua_load_asm-short_example =
    lua_load_asm-short true garbage recorder vm 0x60 0x00 (zeros 65534) [] refl (length-zeros 65534)
