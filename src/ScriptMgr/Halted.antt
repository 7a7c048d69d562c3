-- ===== src/ScriptMgr/Halted.antt =====
-- The Lua functions of sw/src/scriptmgr.cpp on the FPGA of hw/src/hci/hci.v.
use fpga_nes.Prelude.{
  ℕ, zero, suc, ◌+◌, ◌≡◌, refl, sym, ap, ap₂, ◌∙◌, Bool, true, false, some, List, [], ◌∷◌, ◌++◌,
  append-nil, arith, length, length-append, take, drop, Bool-cases, inl, inr,
}
use fpga_nes.Protocol.{Command, encode, reply_length}
use fpga_nes.Hci.{HciState}
use fpga_nes.Link.{Event, Board, Fpga, run}
use fpga_nes.Link.Clocks.{Scratch, fpga}
use fpga_nes.Link.Effects.{effects, cfg_after, state_after, clocks}
use fpga_nes.Link.Deliver.{deliver}
use fpga_nes.Link.Replies.{replied, replied-append, length-replied-effects}
use fpga_nes.ScriptMgr.{LuaVm, Link, nothing, LuaFunction, call}
use fpga_nes.ScriptMgr.Handlers.{accepts, command_of, IsWellFormed-command_of}
use fpga_nes.ScriptMgr.Exchange.{reply_of, sent}
use fpga_nes.ScriptMgr.Calls.{result_of, reads_reply, served, call_lem}

-- Bytes that arrive in the receive queue.
abbrev pub arrive : List ℕ → Fpga → Fpga
arrive bytes f = record { regs = f.regs; rx = f.rx ++ bytes; trace = f.trace }

-- The FPGA as a serial link. The second component is how much of what it sent was received;
-- `budget bytes` clocks pass after a transmission.
abbrev pub fpga_link : Board → (List ℕ → ℕ) → Link (Fpga × ℕ)
fpga_link b budget = record {
  send = λ bytes w. (run b (budget bytes) (arrive bytes w.0), w.1);
  receive =
      λ n w. (let got = take n (drop w.1 (replied w.0.trace)) in (got, (w.0, w.1 + length got)));
}

take-all {ℓ} : {A : Type ℓ} (n : ℕ) (xs : List A) → length xs ≡ n → take n xs ≡ xs
take-all zero [] h = refl
take-all zero (x ∷ xs) h = absurd (omega arith)
take-all (suc n) [] h = refl
take-all (suc n) (x ∷ xs) h = ap (λ r. x ∷ r) (take-all n xs (omega arith))

drop-append {ℓ} : {A : Type ℓ} (xs ys : List A) → drop (length xs) (xs ++ ys) ≡ ys
drop-append [] ys = refl
drop-append (x ∷ xs) ys = drop-append xs ys

-- The reply that was not received yet.
fresh_reply :
    (b : Board) (trace : List Event) (c : Command)
    → take (reply_length c) (drop (length (replied trace)) (replied (trace ++ effects b trace c)))
      ≡ replied (effects b trace c)
fresh_reply b trace c =
    let e = effects b trace c in
    ap (λ l. take (reply_length c) (drop (length (replied trace)) l)) (replied-append trace e)
    ∙ ap (take (reply_length c)) (drop-append (replied trace) (replied e))
    ∙ take-all (reply_length c) (replied e) (length-replied-effects b trace c)

received_count :
    (b : Board) (trace : List Event) (c : Command)
    → length (replied (trace ++ effects b trace c))
      ≡ length (replied trace) + length (replied (effects b trace c))
received_count b trace c =
    ap length (replied-append trace (effects b trace c))
    ∙ length-append (replied trace) (replied (effects b trace c))

-- Functions that read no reply send commands that have none.
silent_commands :
    (vm : LuaVm) (f : LuaFunction) → reads_reply f ≡ false → reply_length (command_of vm f) ≡ 0
silent_commands vm LuaFunction.echo h = absurd (cc)
silent_commands vm LuaFunction.cpu_mem_rd h = absurd (cc)
silent_commands vm LuaFunction.ppu_mem_rd h = absurd (cc)
silent_commands vm LuaFunction.cpu_reg_rd h = absurd (cc)
silent_commands vm LuaFunction.cpu_mem_wr h = refl
silent_commands vm LuaFunction.ppu_mem_wr h = refl
silent_commands vm LuaFunction.cpu_reg_wr h = refl
silent_commands vm LuaFunction.dbg_hlt h = refl
silent_commands vm LuaFunction.dbg_run h = refl

result_of-silent :
    (f : LuaFunction) (bytes : List ℕ) → reads_reply f ≡ false → result_of f bytes ≡ nothing
result_of-silent LuaFunction.echo bytes h = absurd (cc)
result_of-silent LuaFunction.cpu_mem_rd bytes h = absurd (cc)
result_of-silent LuaFunction.ppu_mem_rd bytes h = absurd (cc)
result_of-silent LuaFunction.cpu_reg_rd bytes h = absurd (cc)
result_of-silent _ bytes h = refl

module _ (debug : Bool) (garbage : ℕ → ℕ) (b : Board) (budget : List ℕ → ℕ) (c : Command)
    (s s' : Scratch) (err cfg : ℕ) (trace : List Event) (enough : budget (encode c) ≡ clocks c)
    (delivered : run b (clocks c) (fpga HciState.decode s err cfg (encode c ++ []) trace)
      ≡ fpga (state_after c) s' err (cfg_after cfg c) [] (trace ++ effects b trace c)) where
  -- The FPGA before and after the command.
  abbrev before : Fpga × ℕ
  before = (fpga HciState.decode s err cfg [] trace, length (replied trace))

  abbrev served_by : Fpga
  served_by = fpga (state_after c) s' err (cfg_after cfg c) [] (trace ++ effects b trace c)

  sent_lem : sent debug garbage (fpga_link b budget) c before ≡ (served_by, length (replied trace))
  sent_lem =
      ap (λ f. (f, length (replied trace)))
        (ap₂ (λ n rx. run b n (fpga HciState.decode s err cfg rx trace)) enough
            (sym (append-nil (encode c)))
          ∙ delivered)

  pub reply_lem :
      reply_of debug garbage (fpga_link b budget) c before
      ≡ (replied (effects b trace c), (served_by, length (replied (trace ++ effects b trace c))))
  reply_lem =
      ap ((fpga_link b budget).receive (reply_length c)) sent_lem
      ∙ ap (λ got. (got, (served_by, length (replied trace) + length got))) (fresh_reply b trace c)
      ∙ ap (λ n. (replied (effects b trace c), (served_by, n))) (sym (received_count b trace c))

  -- A command without a reply leaves nothing to receive.
  quiet_lem :
      reply_length c ≡ 0
      → sent debug garbage (fpga_link b budget) c before
        ≡ (served_by, length (replied (trace ++ effects b trace c)))
  quiet_lem none_expected =
      sent_lem
      ∙ ap (λ n. (served_by, n))
          (omega (arith, none_expected, received_count b trace c, length-replied-effects b trace c))

module _ (debug : Bool) (garbage : ℕ → ℕ) (b : Board) (budget : List ℕ → ℕ) (vm : LuaVm) where
  served_lem :
      (f : LuaFunction) (s s' : Scratch) (err cfg : ℕ) (trace : List Event)
      → budget (encode (command_of vm f)) ≡ clocks (command_of vm f)
      → run b
          (clocks (command_of vm f))
          (fpga HciState.decode s err cfg (encode (command_of vm f) ++ []) trace)
        ≡ fpga
            (state_after (command_of vm f))
            s'
            err
            (cfg_after cfg (command_of vm f))
            []
            (trace ++ effects b trace (command_of vm f))
      → served debug garbage
          (fpga_link b budget)
          vm
          f
          (fpga HciState.decode s err cfg [] trace, length (replied trace))
        ≡ (
          result_of f (replied (effects b trace (command_of vm f))),
          (
            fpga
                (state_after (command_of vm f))
                s'
                err
                (cfg_after cfg (command_of vm f))
                []
                (trace ++ effects b trace (command_of vm f)),
            length (replied (trace ++ effects b trace (command_of vm f))),
          ),
        )
  served_lem f s s' err cfg trace enough delivered = elim (Bool-cases (reads_reply f)) [
    | inl e ↦ rw e (
        ap (λ x. (result_of f x.0, x.1))
          (reply_lem debug garbage b budget (command_of vm f) s s' err cfg trace enough delivered))
    | inr e ↦
        rw (e, result_of-silent f _ e)
          (ap (λ x. (nothing, x))
            (quiet_lem debug garbage b budget (command_of vm f) s s' err cfg trace enough delivered
              (silent_commands vm f e)))
  ]

-- Any of the nine functions, called with arguments of the right types while the FPGA is halted and
-- idle, with the clocks that the command takes before the program goes on: the call returns, without a
-- memory fault or a failed assertion; Lua gets exactly the bytes that the FPGA sent for this command
-- (the echoed payload, the bytes of memory, or the register), or no value for a command without an
-- answer; the board saw exactly the effects of that command; all that the FPGA ever sent was received;
-- and the FPGA is halted and idle again, or runs after DbgRun.
pub call-halted :
    (debug : Bool) (garbage : ℕ → ℕ) (b : Board) (budget : List ℕ → ℕ) (vm : LuaVm)
    (f : LuaFunction) (s : Scratch) (err cfg : ℕ) (trace : List Event)
    → accepts vm f ≡ true
    → budget (encode (command_of vm f)) ≡ clocks (command_of vm f)
    → (s' : Scratch) × (call debug garbage
          (fpga_link b budget)
          vm
          f
          (fpga HciState.decode s err cfg [] trace, length (replied trace))
        ≡ some (
          result_of f (replied (effects b trace (command_of vm f))),
          (
            fpga
                (state_after (command_of vm f))
                s'
                err
                (cfg_after cfg (command_of vm f))
                []
                (trace ++ effects b trace (command_of vm f)),
            length (replied (trace ++ effects b trace (command_of vm f))),
          ),
        ))
call-halted debug garbage b budget vm f s err cfg trace ok enough =
    let c = command_of vm f in
    let w : Fpga × ℕ = (fpga HciState.decode s err cfg [] trace, length (replied trace)) in
    let (s', delivered) = deliver b s err cfg c [] trace (IsWellFormed-command_of vm f) in
    let got = reply_lem debug garbage b budget c s s' err cfg trace enough delivered in
    (
      s',
      call_lem debug garbage (fpga_link b budget) vm f w ok
            (ap (λ x. length x.0) got ∙ length-replied-effects b trace c)
          ∙ ap some (served_lem debug garbage b budget vm f s s' err cfg trace enough delivered),
    )
