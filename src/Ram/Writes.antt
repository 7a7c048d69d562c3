-- ===== src/Ram/Writes.antt =====
-- Writes of the host interface to the memories of hw/src/nes_top.v, block by block.
use fpga_nes.Prelude.{
  ℕ, ◌+◌, ◌%◌, ◌≤◌, ◌<◌, ◌≡◌, refl, sym, ap, ap₂, ◌∙◌, List, [], ◌∷◌, ◌++◌, arith, length,
}
use fpga_nes.Hci.{next_addr}
use fpga_nes.Link.{Event, cpu_write, ppu_write}
use fpga_nes.Link.Clocks.{writes}
use fpga_nes.Ram.{reading, Memories, memories_clock, bus_of, cfg_of, after_events, prgrom_bram_a}
use fpga_nes.Ram.Stores.{stores}

pub after_events-append :
    (xs ys : List Event) (cfg : ℕ) (m : Memories)
    → after_events (xs ++ ys) cfg m
      ≡ after_events ys (after_events xs cfg m).0 (after_events xs cfg m).1
unfolding after_events
after_events-append [] ys cfg m = refl
after_events-append (e ∷ xs) ys cfg m =
    after_events-append xs ys (cfg_of cfg e) (memories_clock (bus_of cfg e) m)

-- The address of the pattern tables, the address of WRAM.
abbrev pub pattern_a : ℕ → ℕ
pattern_a a = a % 0x4000 % 0x2000

abbrev pub wram_a : ℕ → ℕ
wram_a a = a % 0x800

-- The words of the three memories that can be written in one piece.
pub record Contents : Type 0 where
  pub prg : ℕ → ℕ
  pub pattern : ℕ → ℕ
  pub wram : ℕ → ℕ

abbrev pub contents : Memories → Contents
contents m = record { prg = m.prgrom.ram; pattern = m.chrrom_pat.ram; wram = m.wram.ram }

pub data Target : Type 0 where
  to_prg to_pattern to_wram : Target

abbrev pub event_of : Target → ℕ → ℕ → Event
event_of to_pattern = ppu_write
event_of _ = cpu_write

-- The addresses of each: from the first number on, below the second.
abbrev pub first_a : Target → ℕ
first_a to_prg = 0x8000
first_a _ = 0

abbrev pub end_a : Target → ℕ
end_a to_prg = 0x10000
end_a _ = 0x2000

abbrev pub put : ℕ → Target → ℕ → List ℕ → Contents → Contents
put cfg to_prg a p c = record c { prg = stores (prgrom_bram_a cfg) a p c.prg }
put cfg to_pattern a p c = record c { pattern = stores pattern_a a p c.pattern }
put cfg to_wram a p c = record c { wram = stores wram_a a p c.wram }

pub put-cons :
    (cfg : ℕ) (to : Target) (a x : ℕ) (p : List ℕ) (c : Contents)
    → put cfg to (a + 1) p (put cfg to a (x ∷ []) c) ≡ put cfg to a (x ∷ p) c
unfolding stores
put-cons cfg to_prg a x p c = refl
put-cons cfg to_pattern a x p c = refl
put-cons cfg to_wram a x p c = refl

write_one :
    (cfg : ℕ) (to : Target) (a x : ℕ) (m : Memories)
    → first_a to ≤ a
    → a < end_a to
    → contents (memories_clock (bus_of cfg (event_of to a x)) m)
      ≡ put cfg to a (x ∷ []) (contents m)
unfolding memories_clock stores
write_one cfg to_prg a x m lo hi = ground arith
write_one cfg to_pattern a x m lo hi = ground arith
write_one cfg to_wram a x m lo hi = ground arith

cfg_of-write : (cfg : ℕ) (to : Target) (a x : ℕ) → cfg_of cfg (event_of to a x) ≡ cfg
cfg_of-write cfg to_prg a x = refl
cfg_of-write cfg to_pattern a x = refl
cfg_of-write cfg to_wram a x = refl

put-nil : (cfg : ℕ) (to : Target) (a : ℕ) (c : Contents) → put cfg to a [] c ≡ c
unfolding stores
put-nil cfg to_prg a c = refl
put-nil cfg to_pattern a c = refl
put-nil cfg to_wram a c = refl

-- No address wraps inside of a memory.
writes-next_addr :
    (ev : ℕ → ℕ → Event) (a : ℕ) (p : List ℕ)
    → a + 1 + length p ≤ 0x10000
    → writes ev (next_addr a) p ≡ writes ev (a + 1) p
writes-next_addr ev a [] h = refl
writes-next_addr ev a (x ∷ p) h =
    ap (λ (y : ℕ). writes ev y (x ∷ p)) (let z : next_addr a ≡ a + 1 = omega arith in z)

end-le : (to : Target) → end_a to ≤ 0x10000
end-le to_prg = omega arith
end-le to_pattern = omega arith
end-le to_wram = omega arith

-- A block goes to its memory, and to no other of the three.
pub after_events-writes :
    (cfg : ℕ) (to : Target) (p : List ℕ) (a : ℕ) (m : Memories)
    → first_a to ≤ a
    → a + length p ≤ end_a to
    → ((after_events (writes (event_of to) a p) cfg m).0 ≡ cfg)
      × (contents (after_events (writes (event_of to) a p) cfg m).1 ≡ put cfg to a p (contents m))
unfolding after_events
after_events-writes cfg to [] a m lo hi = (refl, sym (put-nil cfg to a (contents m)))
after_events-writes cfg to (x ∷ p) a m lo hi =
    let m' = memories_clock (bus_of cfg (event_of to a x)) m in
    let (same, stored) = after_events-writes cfg to p (a + 1) m' (omega arith) (omega arith) in
    let first : after_events (writes (event_of to) a (x ∷ p)) cfg m
        ≡ after_events (writes (event_of to) (a + 1) p) cfg m' =
      ap₂ (λ es c. after_events es c m')
        (writes-next_addr (event_of to) a p (omega (arith, end-le to))) (cfg_of-write cfg to a x) in
    (
      ap (λ r. r.0) first ∙ same,
      ap (λ r. contents r.1) first
          ∙ stored
          ∙ ap (put cfg to (a + 1) p) (write_one cfg to a x m lo (omega arith))
          ∙ put-cons cfg to a x p (contents m),
    )

-- The clocks in which nothing is written leave every word.
pub reading-keeps :
    (cfg a : ℕ) (m : Memories) → contents (memories_clock (reading cfg a) m) ≡ contents m
unfolding memories_clock
reading-keeps cfg a m = ground arith
