-- ===== src/ScriptMgr/Session.antt =====
-- The calls of a script, one after the other: the library "nesdbg" of sw/src/scriptmgr.cpp with the FPGA.
use fpga_nes.Prelude.{
  ℕ, ◌≡◌, refl, Bool, true, Option, some, List, [], ◌∷◌, ◌++◌, length, All, ◌>>=◌,
}
use fpga_nes.Protocol.{Command, encode}
use fpga_nes.Hci.{HciState}
use fpga_nes.Link.{Event, Board}
use fpga_nes.Link.Clocks.{Scratch, fpga}
use fpga_nes.Link.Effects.{effects, history, cfg_after, cfg_after_all, clocks}
use fpga_nes.Link.Replies.{replied}
use fpga_nes.Link.Session.{StaysHalted, state_after-decode}
use fpga_nes.ScriptMgr.{LuaVm, Link, LuaResult, LuaFunction, call}
use fpga_nes.ScriptMgr.Handlers.{accepts, command_of}
use fpga_nes.ScriptMgr.Calls.{result_of}
use fpga_nes.ScriptMgr.Halted.{fpga_link, call-halted}

-- A function and what Lua holds when it is called.
pub record LuaCall : Type 0 where
  pub vm : LuaVm
  pub function : LuaFunction

module _ (debug : Bool) (garbage : ℕ → ℕ) {W : Type 0} (link : Link W) where
  -- What the calls hand to Lua, and the link behind them.
  unfoldable pub run_calls : List LuaCall → W → Option (List LuaResult × W)
  run_calls [] w = some ([], w)
  run_calls (c ∷ calls) w = do
    (result, w') ← call debug garbage link c.vm c.function w
    (results, w'') ← run_calls calls w'
    some (result ∷ results, w'')

abbrev pub command_of_call : LuaCall → Command
command_of_call c = command_of c.vm c.function

abbrev pub commands : List LuaCall → List Command
commands [] = []
commands (c ∷ calls) = command_of_call c ∷ commands calls

-- What Lua gets of calls after a trace.
abbrev pub results_of : Board → List Event → List LuaCall → List LuaResult
results_of b trace [] = []
results_of b trace (c ∷ calls) =
    result_of c.function (replied (effects b trace (command_of_call c)))
    ∷ results_of b (trace ++ effects b trace (command_of_call c)) calls

-- Arguments of the right types, the clocks of the command, and no `DbgRun`.
abbrev pub IsCallSession : (List ℕ → ℕ) → List LuaCall → Type 0
IsCallSession budget = All (λ c.
    (accepts c.vm c.function ≡ true)
    × (budget (encode (command_of_call c)) ≡ clocks (command_of_call c))
    × StaysHalted (command_of_call c))

-- Any number of calls of the functions that send one packet, but for DbgRun, with arguments of the right
-- types, while the FPGA is halted and idle, each with the clocks that its command takes: all of them
-- return; each one hands to Lua exactly the bytes that the FPGA sent for it, which may depend on all that
-- the calls before it did to the board, or no value; the board saw exactly the effects of the commands,
-- in the order of the calls; all that the FPGA ever sent was received; and the FPGA is halted and idle
-- again.
pub run_calls-halted :
    (debug : Bool) (garbage : ℕ → ℕ) (b : Board) (budget : List ℕ → ℕ) (calls : List LuaCall)
    (s : Scratch) (err cfg : ℕ) (trace : List Event)
    → IsCallSession budget calls
    → (s' : Scratch) × (run_calls debug garbage
          (fpga_link b budget)
          calls
          (fpga HciState.decode s err cfg [] trace, length (replied trace))
        ≡ some (
          results_of b trace calls,
          (
            fpga HciState.decode s' err
                (cfg_after_all cfg (commands calls))
                []
                (history b trace (commands calls)),
            length (replied (history b trace (commands calls))),
          ),
        ))
unfolding run_calls
run_calls-halted debug garbage b budget [] s err cfg trace h = (s, refl)
run_calls-halted debug garbage b budget (c ∷ calls) s err cfg trace ((ok, enough, halted), h) =
    let (s', first) =
      call-halted debug garbage b budget c.vm c.function s err cfg trace ok enough in
    let first' = rw (state_after-decode (command_of_call c) halted) at first in
    let (s'', later) =
      run_calls-halted debug garbage b budget calls s' err (cfg_after cfg (command_of_call c))
        (trace ++ effects b trace (command_of_call c)) h in
    (s'', rw first' (rw later refl))
