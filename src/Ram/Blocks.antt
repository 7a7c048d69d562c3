-- ===== src/Ram/Blocks.antt =====
-- Blocks of bytes between the host interface hw/src/hci/hci.v and the memories of hw/src/nes_top.v, clock by
-- clock.
use Prim.Native.Nat.add
use fpga_nes.Prelude.{
  ℕ, zero, suc, ◌+◌, ◌*◌, ◌/◌, ◌%◌, ◌≤◌, ◌<◌, ◌≡◌, refl, ap, ap₂, ◌∙◌, Bool, true, false, some,
  List, [], ◌∷◌, ◌++◌, append_assoc, arith, All, length, get_elem?, ◌==◌, if◌then◌else◌,
}
use fpga_nes.Memory.{IsU16, IsByte}
use fpga_nes.Protocol.{u16_field, op_cpu_mem_rd, op_cpu_mem_wr}
use fpga_nes.Hci.{HciState, cycle, concat_low, next_addr, count_down}
use fpga_nes.Link.{Event, Board, Fpga, cpu_write, reply, quiet, clock}
use fpga_nes.Link.Clocks.{Scratch, fpga, silent, cpu, writes, write_last, write_more}
use fpga_nes.Link.Reads.{double, sent, read_wait, read_send}
use fpga_nes.Link.Echo.{replies}
use fpga_nes.Ram.{Memories, memories_clock}
use fpga_nes.Ram.Writes.{Contents, contents, put, put-cons}
use fpga_nes.Ram.Words.{prg_or_wram, word, first_of, end_of}
use fpga_nes.Ram.Clocked.{
  Machine, machine, shown_board, bus_in, bus_now, machine_clock, run_machine, quiet_bus-keeps,
  write_bus, bus-Settled, hci_cpu_din-word,
}

-- Two runs one after the other.
pub run_machine_trans :
    (b : Board) (m n : ℕ) (j : Machine) {g h : Machine}
    → run_machine b m j ≡ g
    → run_machine b n g ≡ h
    → run_machine b (m + n) j ≡ h
unfolding run_machine
run_machine_trans b zero n j p q = rw add.zero (ap (run_machine b n) p ∙ q)
run_machine_trans b (suc m) n j p q =
    rw add.suc (run_machine_trans b m n (machine_clock b quiet j) p q)

module _ (b : Board) (err cfg : ℕ) where
  abbrev reading_chip : Scratch → List ℕ → List Event → Fpga
  reading_chip s rx trace = fpga HciState.cpu_mem_rd_stg_1 s err cfg rx trace

  -- After some clocks the chip is in this state, and the memories hold these words.
  abbrev pub Leads : ℕ → Machine → Fpga → Contents → Type 0
  Leads n j f c = (m : Memories) × (run_machine b n j ≡ machine f m) × (contents m ≡ c)

  pub Leads-append :
      (n k : ℕ) (j : Machine) (f g : Fpga) (c d : Contents)
      → Leads n j f c
      → ((m : Memories) → contents m ≡ c → Leads k (machine f m) g d)
      → Leads (n + k) j g d
  Leads-append n k j f g c d (m, first, holds) later =
      let (m', second, holds') = later m holds in
      (m', run_machine_trans b n k j first second, holds')

  -- The first of the two clocks of a byte: the memories take the address.
  wait_clock :
      (s : Scratch) (rx : List ℕ) (trace : List Event) (m : Memories)
      → (s.execute_cnt % 2 == 0) ≡ true
      → machine_clock b quiet (machine (reading_chip s rx trace) m)
        ≡ machine
            (reading_chip (silent s.decode_cnt (count_down s.execute_cnt) s.addr) rx trace)
            (memories_clock (bus_now b quiet (machine (reading_chip s rx trace) m)) m)
  unfolding machine_clock
  wait_clock s rx trace m even =
      ap (λ f. machine f (memories_clock (bus_now b quiet (machine (reading_chip s rx trace) m)) m))
        (read_wait (shown_board b cfg m) err cfg cpu s rx trace even)

  -- The second: the byte at the address goes to the UART.
  send_clock :
      (s : Scratch) (rx : List ℕ) (trace : List Event) (m : Memories) (x : ℕ)
      → (s.execute_cnt % 2 == 0) ≡ false
      → (shown_board b cfg m).cpu_din trace s.addr ≡ x
      → machine_clock b quiet (machine (reading_chip s rx trace) m)
        ≡ machine
            (fpga
              (if count_down s.execute_cnt == 0 then HciState.decode else HciState.cpu_mem_rd_stg_1)
              (sent s.decode_cnt (count_down s.execute_cnt) (next_addr s.addr) x)
              err
              cfg
              rx
              (trace ++ reply x ∷ []))
            (memories_clock (bus_now b quiet (machine (reading_chip s rx trace) m)) m)
  unfolding machine_clock
  send_clock s rx trace m x odd shows =
      ap (λ f. machine f (memories_clock (bus_now b quiet (machine (reading_chip s rx trace) m)) m))
        (read_send (shown_board b cfg m) err cfg cpu s rx trace odd
          ∙ ap
              (λ (y : ℕ).
                fpga
                  (if count_down s.execute_cnt == 0
                    then HciState.decode
                    else HciState.cpu_mem_rd_stg_1)
                  (sent s.decode_cnt (count_down s.execute_cnt) (next_addr s.addr) y) err cfg rx
                  (trace ++ reply y ∷ []))
              shows)

  -- While it reads memory, the interface writes nothing.
  read-keeps :
      (s : Scratch) (rx : List ℕ) (trace : List Event) (m : Memories)
      → contents (memories_clock (bus_now b quiet (machine (reading_chip s rx trace) m)) m)
        ≡ contents m
  unfolding cycle bus_in
  read-keeps s rx trace m = quiet_bus-keeps _ m refl refl

  -- After the first clock the memories show the word at the address.
  shown_after :
      (in_prg : Bool) (s : Scratch) (rx : List ℕ) (trace : List Event) (m : Memories) (x : ℕ)
      → first_of in_prg ≤ s.addr
      → s.addr < end_of in_prg
      → x < 256
      → word in_prg cfg (contents m) s.addr ≡ x
      → (shown_board b cfg
            (memories_clock (bus_now b quiet (machine (reading_chip s rx trace) m)) m)).cpu_din
          trace s.addr
        ≡ x
  unfolding cycle bus_in
  shown_after in_prg s rx trace m x lo hi byte at =
      let m' = memories_clock (bus_now b quiet (machine (reading_chip s rx trace) m)) m in
      let here : word in_prg cfg (contents m') s.addr ≡ x =
        ap (λ c. word in_prg cfg c s.addr) (read-keeps s rx trace m) ∙ at in
      hci_cpu_din-word in_prg cfg s.addr m' (bus-Settled _ m) lo hi (omega (arith, here, byte))
      ∙ here

  read_byte :
      (in_prg : Bool) (s : Scratch) (n x : ℕ) (rx : List ℕ) (trace : List Event) (m : Memories)
      → s.execute_cnt ≡ 2 * n + 2
      → IsU16 n
      → first_of in_prg ≤ s.addr
      → s.addr < end_of in_prg
      → x < 256
      → word in_prg cfg (contents m) s.addr ≡ x
      → Leads 2
          (machine (reading_chip s rx trace) m)
          (fpga
            (if 2 * n == 0 then HciState.decode else HciState.cpu_mem_rd_stg_1)
            (sent s.decode_cnt (2 * n) (next_addr s.addr) x)
            err
            cfg
            rx
            (trace ++ reply x ∷ []))
          (contents m)
  unfolding run_machine
  read_byte in_prg s n x rx trace m e h lo hi byte at =
      let s' = silent s.decode_cnt (count_down s.execute_cnt) s.addr in
      let m1 = memories_clock (bus_now b quiet (machine (reading_chip s rx trace) m)) m in
      let m2 = memories_clock (bus_now b quiet (machine (reading_chip s' rx trace) m1)) m1 in
      let even : (s.execute_cnt % 2 == 0) ≡ true = ground arith in
      let odd : (s'.execute_cnt % 2 == 0) ≡ false = ground arith in
      let z : count_down s'.execute_cnt ≡ 2 * n = omega arith in
      (
        m2,
        ap (machine_clock b quiet) (wait_clock s rx trace m even)
            ∙ (rw z at (
                send_clock s' rx trace m1 x odd (shown_after in_prg s rx trace m x lo hi byte at))),
        read-keeps s' rx trace m1 ∙ read-keeps s rx trace m,
      )

  -- A block that stands in memory is what the rest of a read packet sends back.
  pub read_block :
      (in_prg : Bool) (s : Scratch) (x : ℕ) (p rx : List ℕ) (trace : List Event) (m : Memories)
      (c : Contents)
      → contents m ≡ c
      → s.execute_cnt ≡ 2 * length (x ∷ p)
      → IsU16 (length (x ∷ p))
      → first_of in_prg ≤ s.addr
      → s.addr + length (x ∷ p) ≤ end_of in_prg
      → end_of in_prg ≤ 0x10000
      → All IsByte (x ∷ p)
      → ((i y : ℕ) → get_elem? (x ∷ p) i ≡ some y → word in_prg cfg c (s.addr + i) ≡ y)
      → (s' : Scratch) × Leads
          (double (length (x ∷ p)))
          (machine (reading_chip s rx trace) m)
          (fpga HciState.decode s' err cfg rx (trace ++ replies (x ∷ p)))
          c
  unfolding run_machine
  read_block in_prg s x [] rx trace m c same e h lo hi small (byte, bytes) at =
      let here : word in_prg cfg (contents m) s.addr ≡ x =
        ap (λ d. word in_prg cfg d s.addr) same
        ∙ ap (word in_prg cfg c) (let z : s.addr ≡ s.addr + 0 = omega arith in z)
        ∙ at 0 x refl in
      let (m', ran, holds) =
        read_byte in_prg s 0 x rx trace m (omega arith) (omega arith) lo (omega arith) (omega arith)
          here in
      (sent s.decode_cnt 0 (next_addr s.addr) x, (m', ran, holds ∙ same))
  read_block in_prg s x (y ∷ p) rx trace m c same e h lo hi small (byte, bytes) at =
      let n = length (y ∷ p) in
      let s1 = sent s.decode_cnt (2 * n) (next_addr s.addr) x in
      let next : next_addr s.addr ≡ s.addr + 1 = omega arith in
      let here : word in_prg cfg (contents m) s.addr ≡ x =
        ap (λ d. word in_prg cfg d s.addr) same
        ∙ ap (word in_prg cfg c) (let z : s.addr ≡ s.addr + 0 = omega arith in z)
        ∙ at 0 x refl in
      let nz : (2 * n == 0) ≡ false = ground arith in
      let (m1, first, held) =
        read_byte in_prg s n x rx trace m (omega arith) (omega arith) lo (omega arith) (omega arith)
          here in
      let (s2, (m2, more, holds)) =
        read_block in_prg s1 y p rx (trace ++ reply x ∷ []) m1 c (held ∙ same) refl (omega arith)
          (omega arith) (omega arith) small bytes
          (λ i z found. ap (word in_prg cfg c) (omega arith) ∙ at (suc i) z found) in
      (
        s2,
        (
          m2,
          ap (run_machine b (double n)) (rw nz at first)
              ∙ more
              ∙ ap (λ es. machine (fpga HciState.decode s2 err cfg rx es) m2)
                  (append_assoc trace (reply x ∷ []) (replies (y ∷ p))),
          holds,
        ),
      )

  abbrev writing_chip : Scratch → List ℕ → List Event → Fpga
  writing_chip s rx trace = fpga HciState.cpu_mem_wr_stg_1 s err cfg rx trace

  -- A byte of a write packet goes to memory.
  write-stores :
      (in_prg : Bool) (s : Scratch) (x : ℕ) (rx : List ℕ) (trace : List Event) (m : Memories)
      → first_of in_prg ≤ s.addr
      → s.addr < end_of in_prg
      → contents (memories_clock (bus_now b quiet (machine (writing_chip s (x ∷ rx) trace) m)) m)
        ≡ put cfg (prg_or_wram in_prg) s.addr (x ∷ []) (contents m)
  unfolding cycle bus_in
  write-stores in_prg s x rx trace m lo hi = write_bus in_prg _ m refl refl lo hi

  -- The rest of a write packet.
  pub write_block :
      (in_prg : Bool) (s : Scratch) (x : ℕ) (p rx : List ℕ) (trace : List Event) (m : Memories)
      → s.execute_cnt ≡ length (x ∷ p)
      → IsU16 (length (x ∷ p))
      → first_of in_prg ≤ s.addr
      → s.addr + length (x ∷ p) ≤ end_of in_prg
      → end_of in_prg ≤ 0x10000
      → (s' : Scratch) × Leads
          (length (x ∷ p))
          (machine (writing_chip s (x ∷ (p ++ rx)) trace) m)
          (fpga HciState.decode s' err cfg rx (trace ++ writes cpu_write s.addr (x ∷ p)))
          (put cfg (prg_or_wram in_prg) s.addr (x ∷ p) (contents m))
  unfolding run_machine machine_clock
  write_block in_prg s x [] rx trace m e h lo hi small =
      let m1 = memories_clock (bus_now b quiet (machine (writing_chip s (x ∷ rx) trace) m)) m in
      (
        silent s.decode_cnt 0 (next_addr s.addr),
        (
          m1,
          ap (λ f. machine f m1) (write_last (shown_board b cfg m) err cfg cpu s x rx trace e),
          write-stores in_prg s x rx trace m lo (omega arith),
        ),
      )
  write_block in_prg s x (y ∷ p) rx trace m e h lo hi small =
      let n = length p in
      let more = y ∷ (p ++ rx) in
      let s1 = silent s.decode_cnt (suc n) (next_addr s.addr) in
      let m1 = memories_clock (bus_now b quiet (machine (writing_chip s (x ∷ more) trace) m)) m in
      let next : next_addr s.addr ≡ s.addr + 1 = omega arith in
      let to = prg_or_wram in_prg in
      let (s2, (m2, later, holds)) =
        write_block in_prg s1 y p rx (trace ++ cpu_write s.addr x ∷ []) m1 refl (omega arith)
          (omega arith) (omega arith) small in
      (
        s2,
        (
          m2,
          ap (λ f. run_machine b (suc n) (machine f m1))
                (write_more (shown_board b cfg m) err cfg cpu s x n more trace e (omega arith))
              ∙ later
              ∙ ap (λ es. machine (fpga HciState.decode s2 err cfg rx es) m2)
                  (append_assoc trace (cpu_write s.addr x ∷ [])
                    (writes cpu_write (next_addr s.addr) (y ∷ p))),
          holds
              ∙ ap₂ (λ (a : ℕ) (c : Contents). put cfg to a (y ∷ p) c) next
                  (write-stores in_prg s x more trace m lo (omega arith))
              ∙ put-cons cfg to s.addr x (y ∷ p) (contents m),
        ),
      )

  joined : (v : ℕ) → concat_low (v / 256) (v % 256) ≡ v
  joined v = omega arith

  read_header_bytes :
      (s : Scratch) (a n : ℕ) (rx : List ℕ) (trace : List Event) (m : Memories)
      → Leads 5
          (machine
            (fpga HciState.decode s err cfg (op_cpu_mem_rd ∷ u16_field a (u16_field n rx)) trace)
            m)
          (fpga
            (if concat_low (n / 256) (n % 256) * 2 == 0
              then HciState.decode
              else HciState.cpu_mem_rd_stg_1)
            (silent 4 (concat_low (n / 256) (n % 256) * 2) (concat_low (a / 256) (a % 256)))
            err
            cfg
            rx
            trace)
          (contents m)
  unfolding run_machine machine_clock clock cycle bus_in
  read_header_bytes s a n rx trace m = (
    _,
    refl,
    quiet_bus-keeps _ _ refl refl
        ∙ quiet_bus-keeps _ _ refl refl
        ∙ quiet_bus-keeps _ _ refl refl
        ∙ quiet_bus-keeps _ _ refl refl
        ∙ quiet_bus-keeps _ m refl refl,
  )

  write_header_bytes :
      (s : Scratch) (a n : ℕ) (rx : List ℕ) (trace : List Event) (m : Memories)
      → Leads 5
          (machine
            (fpga HciState.decode s err cfg (op_cpu_mem_wr ∷ u16_field a (u16_field n rx)) trace)
            m)
          (fpga
            (if concat_low (n / 256) (n % 256) * 1 == 0
              then HciState.decode
              else HciState.cpu_mem_wr_stg_1)
            (silent 4 (concat_low (n / 256) (n % 256) * 1) (concat_low (a / 256) (a % 256)))
            err
            cfg
            rx
            trace)
          (contents m)
  unfolding run_machine machine_clock clock cycle bus_in
  write_header_bytes s a n rx trace m = (
    _,
    refl,
    quiet_bus-keeps _ _ refl refl
        ∙ quiet_bus-keeps _ _ refl refl
        ∙ quiet_bus-keeps _ _ refl refl
        ∙ quiet_bus-keeps _ _ refl refl
        ∙ quiet_bus-keeps _ m refl refl,
  )

  -- Both headers.
  pub read_header :
      (s : Scratch) (a n : ℕ) (rx : List ℕ) (trace : List Event) (m : Memories)
      → Leads 5
          (machine
            (fpga HciState.decode s err cfg (op_cpu_mem_rd ∷ u16_field a (u16_field n rx)) trace)
            m)
          (fpga
            (if 2 * n == 0 then HciState.decode else HciState.cpu_mem_rd_stg_1)
            (silent 4 (2 * n) a)
            err
            cfg
            rx
            trace)
          (contents m)
  read_header s a n rx trace m =
      let count : concat_low (n / 256) (n % 256) * 2 ≡ 2 * n = omega arith in
      rw (count, joined a) at (read_header_bytes s a n rx trace m)

  pub write_header :
      (s : Scratch) (a n : ℕ) (rx : List ℕ) (trace : List Event) (m : Memories)
      → Leads 5
          (machine
            (fpga HciState.decode s err cfg (op_cpu_mem_wr ∷ u16_field a (u16_field n rx)) trace)
            m)
          (fpga
            (if n == 0 then HciState.decode else HciState.cpu_mem_wr_stg_1)
            (silent 4 n a)
            err
            cfg
            rx
            trace)
          (contents m)
  write_header s a n rx trace m =
      let count : concat_low (n / 256) (n % 256) * 1 ≡ n = omega arith in
      rw (count, joined a) at (write_header_bytes s a n rx trace m)
