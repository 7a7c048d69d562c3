-- ===== src/Link/Echo.antt =====
-- The echo packet: the interface of hw/src/hci/hci.v sends each byte of the payload back.
use fpga_nes.Prelude.{
  ℕ, suc, ◌≡◌, refl, ap, ◌∙◌, false, List, [], ◌∷◌, ◌++◌, append_assoc, arith, length,
  if◌then◌else◌, ◌==◌,
}
use fpga_nes.Memory.{IsU16}
use fpga_nes.Hci.{HciState, count_down}
use fpga_nes.Link.{Event, Board, reply, quiet, clock, run}
use fpga_nes.Link.Clocks.{Scratch, fpga}
use fpga_nes.Link.Reads.{sent, Ends}

abbrev pub replies : List ℕ → List Event
replies [] = []
replies (p ∷ ps) = reply p ∷ replies ps

module _ (b : Board) (err cfg : ℕ) where
  echo_clock :
      (s : Scratch) (p : ℕ) (rx : List ℕ) (trace : List Event)
      → clock b quiet (fpga HciState.echo_stg_1 s err cfg (p ∷ rx) trace)
        ≡ fpga
            (if count_down s.execute_cnt == 0 then HciState.decode else HciState.echo_stg_1)
            (sent s.decode_cnt (count_down s.execute_cnt) s.addr p)
            err
            cfg
            rx
            (trace ++ reply p ∷ [])
  unfolding clock
  echo_clock s p rx trace = refl

  echo_last :
      (s : Scratch) (p : ℕ) (rx : List ℕ) (trace : List Event)
      → s.execute_cnt ≡ 1
      → clock b quiet (fpga HciState.echo_stg_1 s err cfg (p ∷ rx) trace)
        ≡ fpga HciState.decode (sent s.decode_cnt 0 s.addr p) err cfg rx (trace ++ reply p ∷ [])
  echo_last s p rx trace e =
      let z : count_down s.execute_cnt ≡ 0 = omega arith in rw z at (echo_clock s p rx trace)

  echo_more :
      (s : Scratch) (p n : ℕ) (rx : List ℕ) (trace : List Event)
      → s.execute_cnt ≡ suc (suc n)
      → IsU16 (suc n)
      → clock b quiet (fpga HciState.echo_stg_1 s err cfg (p ∷ rx) trace)
        ≡ fpga HciState.echo_stg_1
            (sent s.decode_cnt (suc n) s.addr p)
            err
            cfg
            rx
            (trace ++ reply p ∷ [])
  echo_more s p n rx trace e h =
      let z : count_down s.execute_cnt ≡ suc n = omega arith in
      let nz : (suc n == 0) ≡ false = ground arith in rw (z, nz) at (echo_clock s p rx trace)

  pub echo_loop :
      (s : Scratch) (p : ℕ) (payload rest : List ℕ) (trace : List Event)
      → s.execute_cnt ≡ length (p ∷ payload)
      → IsU16 (length (p ∷ payload))
      → Ends b
          (length (p ∷ payload))
          (fpga HciState.echo_stg_1 s err cfg (p ∷ (payload ++ rest)) trace)
          err
          cfg
          rest
          (trace ++ replies (p ∷ payload))
  unfolding run
  echo_loop s p [] rest trace e h = (sent s.decode_cnt 0 s.addr p, echo_last s p rest trace e)
  echo_loop s p (q ∷ payload) rest trace e h =
      let n = length payload in
      let s' = sent s.decode_cnt (suc n) s.addr p in
      let trace' = trace ++ reply p ∷ [] in
      let (s'', more) = echo_loop s' q payload rest trace' refl (omega arith) in
      (
        s'',
        ap (run b (suc n)) (echo_more s p n (q ∷ (payload ++ rest)) trace e (omega arith))
            ∙ more
            ∙ ap (fpga HciState.decode s'' err cfg rest) (append_assoc trace _ _),
      )
