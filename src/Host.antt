-- ===== src/Host.antt =====
-- The debugger's side: what a handler of sw/src/nesdbg.cpp or sw/src/scriptmgr.cpp does, in order.
-- A run is `none` where the C++ code has undefined behaviour (an access outside a buffer).
use fpga_nes.Prelude.{
  ℕ, zero, suc, Bool, true, false, Option, none, some, List, [], ◌∷◌, ◌++◌, ◌≡◌, refl, length,
}
use fpga_nes.Packet.{DbgPacket, size_in_bytes}

-- The texts of the message boxes of `LoadRom`.
pub data Message : Type 0 where
  open_failed read_failed invalid_header too_many_banks bad_mirroring bad_mapper : Message

pub data HostEvent : Type 0 where
  message : Message → HostEvent
  send : List ℕ → HostEvent
  progress : ℕ → ℕ → HostEvent
  close_file : HostEvent

abbrev pub Host {ℓ} : Type ℓ → Type ℓ
Host A = List HostEvent → Option (A × List HostEvent)

abbrev pub pure {ℓ} : {A : Type ℓ} → A → Host A
pure a log = some (a, log)

infixl 5 ◌>>=◌ ◌>>◌
abbrev pub ◌>>=◌ {ℓ κ} : {A : Type ℓ} {B : Type κ} → Host A → (A → Host B) → Host B
◌>>=◌ m f log = elim (m log) [ none ↦ none | some (a, log') ↦ f a log' ]

abbrev pub ◌>>◌ {ℓ} : {B : Type ℓ} → Host (Unit {0}) → Host B → Host B
m >> k = m >>= λ _. k

-- A step whose outcome is known.
pub bind_lem {ℓ κ} :
    {A : Type ℓ} {B : Type κ} (m : Host A) (f : A → Host B) (log : List HostEvent) {a : A}
    {log' : List HostEvent}
    → m log ≡ some (a, log')
    → (m >>= f) log ≡ f a log'
bind_lem m f log e = rw (e, ◌>>=◌)

-- A memory access or a constructor, which may be undefined.
abbrev pub lift {ℓ} : {A : Type ℓ} → Option A → Host A
lift o log = elim o [ none ↦ none | some a ↦ some (a, log) ]

pub lift_next {ℓ κ} :
    {A : Type ℓ} {B : Type κ} (o : Option A) (f : A → Host B) (log : List HostEvent) {a : A}
    → o ≡ some a
    → (lift o >>= f) log ≡ f a log
lift_next o f log e = rw e

abbrev pub tell : HostEvent → Host (Unit {0})
tell e log = some (tt, log ++ e ∷ [])

abbrev pub tell_if : Bool → HostEvent → Host (Unit {0})
tell_if true e log = some (tt, log ++ e ∷ [])
tell_if false e log = some (tt, log)

-- The first `n` bytes behind a pointer.
abbrev pub prefix? : ℕ → List ℕ → Option (List ℕ)
prefix? zero m = some []
prefix? (suc n) [] = none
prefix? (suc n) (x ∷ m) = elim (prefix? n m) [ none ↦ none | some p ↦ some (x ∷ p) ]

-- All of a buffer.
pub prefix?-length : (m : List ℕ) → prefix? (length m) m ≡ some m
prefix?-length [] = refl
prefix?-length (x ∷ m) = rw (prefix?-length m)

-- `SendData(packet.PacketData(), packet.SizeInBytes())`, its result ignored.
unfoldable pub send_packet : DbgPacket → Host (Unit {0})
send_packet p = do n ← lift (size_in_bytes p); bytes ← lift (prefix? n p.bytes); tell (send bytes)
