-- ===== src/ScriptMgr/Exchange.antt =====
-- The exchanges that the Lua functions of sw/src/scriptmgr.cpp share: a packet is sent, and its reply
-- is received, if it has one.
use fpga_nes.Prelude.{
  ℕ, ◌≡◌, refl, sym, ap, ◌∙◌, Bool, false, not, ◌&&◌, Option, some, List, [], ◌∷◌, ◌++◌, arith,
  length, drop, get_elem?, ◌==◌, ◌>>=◌,
}
use fpga_nes.Memory.{new_bytes, length-new_bytes}
use fpga_nes.Protocol.{Command, encode, reply_length}
use fpga_nes.Packet.{DbgPacket, return_bytes_expected}
use fpga_nes.Packet.Wire.{packet_of, size_in_bytes-packet_of, return_bytes_expected-packet_of}
use fpga_nes.Host.{prefix?, prefix?-length}
use fpga_nes.ScriptMgr.{
  Link, LuaResult, nothing, table, number, transmit, receive_reply, assert_no_reply,
}

drop-all {ℓ} :
    {A : Type ℓ} (xs ys : List A) → length xs ≡ length ys → xs ++ drop (length xs) ys ≡ xs
drop-all [] [] h = refl
drop-all [] (y ∷ ys) h = absurd (omega arith)
drop-all (x ∷ xs) [] h = absurd (omega arith)
drop-all (x ∷ xs) (y ∷ ys) h = ap (λ r. x ∷ r) (drop-all xs ys (omega arith))

assertion_holds : (debug : Bool) (m n : ℕ) → m ≡ n → (debug && not (m == n)) ≡ false
assertion_holds debug m n h = ground arith

abbrev pub first_or_zero : List ℕ → ℕ
first_or_zero [] = 0
first_or_zero (x ∷ xs) = x

module _ (debug : Bool) (garbage : ℕ → ℕ) {W : Type 0} (link : Link W) where
  -- The link after the packet of a command, and what it returns then.
  abbrev pub sent : Command → W → W
  sent c w = link.send (encode c) w

  abbrev pub reply_of : Command → W → List ℕ × W
  reply_of c w = link.receive (reply_length c) (sent c w)

  pub transmit_lem :
      (c : Command) (w : W) → transmit debug garbage link (packet_of c) w ≡ some (sent c w)
  transmit_lem c w = rw (size_in_bytes-packet_of c, prefix?-length (encode c))

  -- A reception of all that was asked for.
  pub receive_reply_lem :
      (c : Command) (w : W)
      → length (link.receive (reply_length c) w).0 ≡ reply_length c
      → receive_reply debug garbage link (packet_of c) w ≡ some (link.receive (reply_length c) w)
  receive_reply_lem c w h =
      let bytes = (link.receive (reply_length c) w).0 in
      rw (return_bytes_expected-packet_of c) (
        rw (assertion_holds debug (length bytes) (reply_length c) h) (
          rw (
            drop-all bytes (new_bytes garbage (reply_length c))
              (h ∙ sym (length-new_bytes garbage _)))))

  pub assert_no_reply_lem :
      (c : Command)
      → reply_length c ≡ 0
      → assert_no_reply debug garbage link (packet_of c) ≡ some tt
  assert_no_reply_lem c h =
      rw (return_bytes_expected-packet_of c) (rw (assertion_holds debug (reply_length c) 0 h))

  -- A packet is sent, and its reply becomes a table or a number, or it has none.
  abbrev pub to_table : DbgPacket → W → Option (LuaResult × W)
  to_table p w = do
    w' ← transmit debug garbage link p w
    (received, w'') ← receive_reply debug garbage link p w'
    n ← return_bytes_expected p
    values ← prefix? n received
    some (table values, w'')

  abbrev pub to_number : DbgPacket → W → Option (LuaResult × W)
  to_number p w = do
    w' ← transmit debug garbage link p w
    (received, w'') ← receive_reply debug garbage link p w'
    v ← get_elem? received 0
    some (number v, w'')

  abbrev pub to_nothing : DbgPacket → W → Option (LuaResult × W)
  to_nothing p w = do
    w' ← transmit debug garbage link p w
    _ ← assert_no_reply debug garbage link p
    some (nothing, w')

  pub ask_table :
      (o : Option DbgPacket) (c : Command) (w : W)
      → o ≡ some (packet_of c)
      → length (reply_of c w).0 ≡ reply_length c
      → (do p ← o; to_table p w) ≡ some (table (reply_of c w).0, (reply_of c w).1)
  ask_table o c w made h = rw made (
      rw (transmit_lem c w) (
        rw (receive_reply_lem c (sent c w) h) (
          rw (return_bytes_expected-packet_of c)
            (rw (ap (λ n. prefix? n (reply_of c w).0) (sym h) ∙ prefix?-length (reply_of c w).0)))))

  pub ask_number :
      (o : Option DbgPacket) (c : Command) (w : W)
      → o ≡ some (packet_of c)
      → reply_length c ≡ 1
      → length (reply_of c w).0 ≡ reply_length c
      → (do p ← o; to_number p w) ≡ some (number (first_or_zero (reply_of c w).0), (reply_of c w).1)
  ask_number o c w made one h = rw made (
      rw (transmit_lem c w)
        (rw (receive_reply_lem c (sent c w) h) (rw (first (reply_of c w).0 (h ∙ one)))))
    where
      first : (bytes : List ℕ) → length bytes ≡ 1 → get_elem? bytes 0 ≡ some (first_or_zero bytes)
      first [] e = absurd (omega arith)
      first (x ∷ bytes) e = refl

  -- The packet of a command without a reply.
  pub tell :
      (o : Option DbgPacket) (c : Command) (w : W)
      → o ≡ some (packet_of c)
      → reply_length c ≡ 0
      → (do p ← o; to_nothing p w) ≡ some (nothing, sent c w)
  tell o c w made none_expected =
      rw made (rw (transmit_lem c w) (rw (assert_no_reply_lem c none_expected)))
