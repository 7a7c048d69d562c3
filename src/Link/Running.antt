-- ===== src/Link/Running.antt =====
-- What the host interface does with bytes that reach a machine that runs: the state S_DISABLED of
-- hw/src/hci/hci.v, until a break.
use fpga_nes.Prelude.{
  ℕ, ◌+◌, ◌≡◌, ◌≢◌, sym, ap, ◌∙◌, false, true, List, [], ◌∷◌, ◌++◌, append_assoc, append-nil, arith,
  All, length, ◌==◌, if◌then◌else◌, Bool-cases, inl, inr,
}
use fpga_nes.Protocol.{Command, encode, op_dbg_hlt, op_query_hlt}
use fpga_nes.Hci.{HciState}
use fpga_nes.Link.{Event, Board, clock, run, reply}
use fpga_nes.Link.Clocks.{Scratch, fpga, silent, run_trans}
use fpga_nes.Link.Reads.{sent}
use fpga_nes.Link.Effects.{encode_all, history, cfg_after_all, clocks_all}
use fpga_nes.Link.Session.{IsSession, session_lem}

-- None of the bytes is a break.
abbrev pub HasNoBreak : List ℕ → Type 0
HasNoBreak = All (λ byte. byte ≢ op_dbg_hlt)

-- A query is answered 0, that the machine is not halted; no other byte is answered.
abbrev pub answer : ℕ → List Event
answer byte = if byte == op_query_hlt then reply 0 ∷ [] else []

abbrev pub answers : List ℕ → List Event
answers [] = []
answers (byte ∷ bytes) = answer byte ++ answers bytes

module _ (b : Board) (err cfg : ℕ) where
  one_byte :
      (s : Scratch) (byte : ℕ) (rest : List ℕ) (trace : List Event)
      → byte ≢ op_dbg_hlt
      → (s' : Scratch) × (run b 1 (fpga HciState.disabled s err cfg (byte ∷ rest) trace)
          ≡ fpga HciState.disabled s' err cfg rest (trace ++ answer byte))
  unfolding run clock
  one_byte s byte rest trace h =
      let nh : (byte == op_dbg_hlt) ≡ false = ground arith in
      elim (Bool-cases (byte == op_query_hlt)) [
        | inl e ↦ (sent s.decode_cnt s.execute_cnt s.addr 0, rw (nh, e, clock))
        | inr e ↦ (silent s.decode_cnt s.execute_cnt s.addr, rw (nh, e, clock, append-nil trace))
      ]

  pub all_bytes :
      (bytes : List ℕ) (s : Scratch) (rest : List ℕ) (trace : List Event)
      → HasNoBreak bytes
      → (s' : Scratch) × (run b
            (length bytes)
            (fpga HciState.disabled s err cfg (bytes ++ rest) trace)
          ≡ fpga HciState.disabled s' err cfg rest (trace ++ answers bytes))
  all_bytes [] s rest trace h = (
    s,
    unfold run in ap (λ es. fpga HciState.disabled s err cfg rest es) (sym (append-nil trace)),
  )
  all_bytes (byte ∷ bytes) s rest trace (other, h) =
      let (s1, first) = one_byte s byte (bytes ++ rest) trace other in
      let (s2, others) = all_bytes bytes s1 rest (trace ++ answer byte) h in
      (
        s2,
        ap (λ (n : ℕ). run b n (fpga HciState.disabled s err cfg (byte ∷ (bytes ++ rest)) trace))
              (let count : length (byte ∷ bytes) ≡ 1 + length bytes = omega arith in count)
            ∙ run_trans b 1 (length bytes) _ first others
            ∙ ap (λ es. fpga HciState.disabled s2 err cfg rest es)
                (append_assoc trace (answer byte) (answers bytes)),
      )

  -- A machine that runs, with no byte late, gets any bytes of which none is a break, then a break,
  -- well-formed commands that keep the machine halted, and `dbg_run`: of the first bytes each query is
  -- answered 0 and nothing else happens, whatever commands they spell; every command behind the break
  -- takes effect once, in order; and the machine runs at the end, with its queue empty.
  pub running-session :
      (bytes : List ℕ) (cs : List Command) (s : Scratch) (trace : List Event)
      → HasNoBreak bytes
      → IsSession cs
      → (s' : Scratch) × (run b (length bytes + (1 + (clocks_all cs + 1))) (
            fpga HciState.disabled s err cfg
              (bytes ++ (encode Command.dbg_hlt ++ (encode_all cs ++ encode Command.dbg_run)))
              trace)
          ≡ fpga HciState.disabled s' err
              (cfg_after_all cfg cs)
              []
              (history b (trace ++ answers bytes) cs))
  running-session bytes cs s trace h wf =
      let (s1, ignored) = all_bytes bytes s _ trace h in
      let (s2, done) = session_lem b err true cs s1 cfg (trace ++ answers bytes) wf in
      (s2, run_trans b (length bytes) (1 + (clocks_all cs + 1)) _ ignored done)
