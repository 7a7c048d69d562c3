-- ===== src/ScriptMgr/Wait.antt =====
-- `ScriptMgr::LuaWaitForHlt` of sw/src/scriptmgr.cpp: the query is sent until the answer is not 0.
use fpga_nes.Prelude.{
  ℕ, zero, suc, ◌<◌, ◌≡◌, ◌≢◌, ◌&&◌, not, none, Bool, true, false, Option, some, List, [], ◌∷◌,
  arith, get_elem?, ◌==◌, if◌then◌else◌, ◌>>=◌,
}
use fpga_nes.Memory.{new_bytes}
use fpga_nes.Protocol.{Command, op_query_hlt}
use fpga_nes.Packet.{DbgPacket, query_hlt_packet, return_bytes_expected}
use fpga_nes.Packet.Wire.{packet_of, query_hlt_packet_lem}
use fpga_nes.ScriptMgr.{Link, transmit, receive_into}
use fpga_nes.ScriptMgr.Exchange.{transmit_lem}

module _ (debug : Bool) (garbage : ℕ → ℕ) {W : Type 0} (link : Link W) where
  -- One round of the loop, with its buffer of `n` bytes.
  abbrev pub query_round : DbgPacket → ℕ → List ℕ → W → Option (List ℕ × W)
  query_round p n buffer w = do
    w' ← transmit debug garbage link p w
    receive_into debug garbage link n buffer w'

  -- The loop, for a number of rounds: true when the answer was not 0, false when the rounds are used up.
  -- The buffer is the same one in every round.
  pub wait_loop : ℕ → DbgPacket → ℕ → List ℕ → W → Option (Bool × W)
  wait_loop zero p n buffer w = some (false, w)
  wait_loop (suc rounds) p n buffer w = do
    (received, w') ← query_round p n buffer w
    v ← get_elem? received 0
    let rest = wait_loop rounds p n received w'
    if v == 0 then rest else some (true, w')

  -- `assert(bytesToReceive == 1)`
  abbrev assert_one : ℕ → Option (Unit {0})
  assert_one n = if debug && not (n == 1) then none else some tt

  unfoldable pub lua_wait_for_hlt : ℕ → W → Option (Bool × W)
  lua_wait_for_hlt rounds w = do
    p ← query_hlt_packet garbage
    n ← return_bytes_expected p
    _ ← assert_one n
    wait_loop rounds p n (new_bytes garbage n) w

  -- The answer to a query, and the link after it.
  abbrev pub asked : W → List ℕ × W
  asked w = link.receive 1 (link.send (op_query_hlt ∷ []) w)

  abbrev pub after_queries : ℕ → W → W
  after_queries zero w = w
  after_queries (suc n) w = after_queries n (asked w).1

  -- One byte fills the buffer.
  query_round_lem :
      (v old : ℕ) (w : W)
      → (asked w).0 ≡ v ∷ []
      → query_round (packet_of Command.query_hlt) 1 (old ∷ []) w ≡ some (v ∷ [], (asked w).1)
  query_round_lem v old w h =
      let fills : (debug && not (1 == 1)) ≡ false = ground arith in
      rw (transmit_lem debug garbage link Command.query_hlt w) (rw h (rw fills))

  wait_loop_lem :
      (n v old : ℕ) (w : W)
      → ((i : ℕ) → i < n → (asked (after_queries i w)).0 ≡ 0 ∷ [])
      → (asked (after_queries n w)).0 ≡ v ∷ []
      → v ≢ 0
      → wait_loop (suc n) (packet_of Command.query_hlt) 1 (old ∷ []) w
        ≡ some (true, after_queries (suc n) w)
  unfolding wait_loop
  wait_loop_lem zero v old w zeros last nz =
      let halted : (v == 0) ≡ false = ground arith in rw (query_round_lem v old w last) (rw halted)
  wait_loop_lem (suc n) v old w zeros last nz =
      rw (query_round_lem 0 old w (zeros 0 (omega arith)))
        (wait_loop_lem n v 0 (asked w).1 (λ i h. zeros (suc i) (omega arith)) last nz)

-- The FPGA answers 0 to the first `n` queries and something else, one byte, to the next: the function
-- comes back after exactly `n + 1` queries, without a memory fault or a failed assertion.
pub lua_wait_for_hlt-returns :
    (debug : Bool) (garbage : ℕ → ℕ) {W : Type 0} (link : Link W) (n v : ℕ) (w : W)
    → ((i : ℕ)
        → i < n
        → (asked debug garbage link (after_queries debug garbage link i w)).0 ≡ 0 ∷ [])
    → (asked debug garbage link (after_queries debug garbage link n w)).0 ≡ v ∷ []
    → v ≢ 0
    → lua_wait_for_hlt debug garbage link (suc n) w
      ≡ some (true, after_queries debug garbage link (suc n) w)
unfolding lua_wait_for_hlt return_bytes_expected
lua_wait_for_hlt-returns debug garbage link n v w zeros last nz =
    let one : (debug && not (1 == 1)) ≡ false = ground arith in
    rw (query_hlt_packet_lem garbage)
      (rw one (wait_loop_lem debug garbage link n v (garbage 0) w zeros last nz))
