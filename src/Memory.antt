-- ===== src/Memory.antt =====
-- Byte buffers of the C++ code: `new BYTE [n]`, reads and writes through `BYTE*` and through a
-- `USHORT*` cast (little-endian, as on the Windows targets that the project builds for), and the
-- loops that copy bytes (sw/src/dbgpacket.cpp). An access outside the buffer is undefined
-- behaviour in C++, and `none` here.
use fpga_nes.Prelude.{
  ℕ, zero, suc, ◌+◌, ◌*◌, ◌/◌, ◌%◌, ◌≤◌, ◌<◌, ◌≡◌, refl, ap, Option, none, some, List, [], ◌∷◌,
  ◌++◌, append_assoc, arith, length, length-append, get_elem?, ◌>>=◌, Option-cases, inl, inr,
}

abbrev pub IsByte : ℕ → Type 0
IsByte b = b < 256

abbrev pub IsU16 : ℕ → Type 0
IsU16 v = v < 65536

-- The conversions to `BYTE` and `USHORT`.
abbrev pub u8 : ℕ → ℕ
u8 v = v % 256

abbrev pub u16 : ℕ → ℕ
u16 v = v % 65536

-- `new BYTE [n]`: the contents are whatever the heap held.
abbrev pub new_bytes : (ℕ → ℕ) → ℕ → List ℕ
new_bytes garbage zero = []
new_bytes garbage (suc n) = garbage n ∷ new_bytes garbage n

abbrev pub write_byte : List ℕ → ℕ → ℕ → Option (List ℕ)
write_byte [] i v = none
write_byte (x ∷ m) zero v = some (v ∷ m)
write_byte (x ∷ m) (suc i) v = do m' ← write_byte m i v; some (x ∷ m')

-- `*reinterpret_cast<USHORT*>(&m[i]) = v`
abbrev pub write_u16 : List ℕ → ℕ → ℕ → Option (List ℕ)
write_u16 m i v = do m' ← write_byte m i (v % 256); write_byte m' (i + 1) (v / 256)

-- `*reinterpret_cast<USHORT*>(&m[i])`
abbrev pub read_u16 : List ℕ → ℕ → Option ℕ
read_u16 m i = do lo ← get_elem? m i; hi ← get_elem? m (i + 1); some (lo + hi * 256)

-- `for (; rounds > 0; i++) dst[off + i] = src[i]`
pub copy_bytes : ℕ → ℕ → ℕ → List ℕ → List ℕ → Option (List ℕ)
copy_bytes zero i off src dst = some dst
copy_bytes (suc rounds) i off src dst = do
  x ← get_elem? src i
  dst' ← write_byte dst (off + i) x
  copy_bytes rounds (i + 1) off src dst'

pub length-new_bytes : (garbage : ℕ → ℕ) (n : ℕ) → length (new_bytes garbage n) ≡ n
length-new_bytes garbage zero = refl
length-new_bytes garbage (suc n) = ap suc (length-new_bytes garbage n)

pub get_elem?-append_self {ℓ} :
    {A : Type ℓ} (xs : List A) (x : A) (ys : List A) → get_elem? (xs ++ x ∷ ys) (length xs) ≡ some x
get_elem?-append_self [] x ys = refl
get_elem?-append_self (y ∷ xs) x ys = get_elem?-append_self xs x ys

pub write_byte-append :
    (xs : List ℕ) (x v : ℕ) (ys : List ℕ)
    → write_byte (xs ++ x ∷ ys) (length xs) v ≡ some (xs ++ v ∷ ys)
write_byte-append [] x v ys = refl
write_byte-append (y ∷ xs) x v ys = rw (write_byte-append xs x v ys)

-- The loop, in the middle of its run: `a` and `pre` are behind it, `b` is to be copied over `mid`.
pub copy_bytes_lem :
    (b a c pre mid post : List ℕ) (off : ℕ)
    → length mid ≡ length b
    → length pre ≡ off + length a
    → copy_bytes (length b) (length a) off (a ++ (b ++ c)) (pre ++ (mid ++ post))
      ≡ some (pre ++ (b ++ post))
unfolding copy_bytes
copy_bytes_lem [] a c pre [] post off hm hp = refl
copy_bytes_lem [] a c pre (y ∷ mid) post off hm hp = absurd (omega arith)
copy_bytes_lem (x ∷ b) a c pre [] post off hm hp = absurd (omega arith)
copy_bytes_lem (x ∷ b) a c pre (y ∷ mid) post off hm hp =
    rw (get_elem?-append_self a x (b ++ c), ← hp, write_byte-append pre y x (mid ++ post))
      (simp (append_assoc, length-append) at
        (copy_bytes_lem b (a ++ x ∷ []) c (pre ++ x ∷ []) mid post off (omega arith)
          (omega (arith, length-append a (x ∷ []), length-append pre (x ∷ [])))))

get_elem?-none {ℓ} : {A : Type ℓ} (xs : List A) (i : ℕ) → length xs ≤ i → get_elem? xs i ≡ none
get_elem?-none [] i h = refl
get_elem?-none (x ∷ xs) zero h = absurd (omega arith)
get_elem?-none (x ∷ xs) (suc i) h = get_elem?-none xs i (omega arith)

get_elem?-lt {ℓ} :
    {A : Type ℓ} (xs : List A) (i : ℕ) (x : A) → get_elem? xs i ≡ some x → i + 1 ≤ length xs
get_elem?-lt [] i x e = cc
get_elem?-lt (y ∷ xs) zero x e = omega arith
get_elem?-lt (y ∷ xs) (suc i) x e = omega (arith, get_elem?-lt xs i x e)

-- A copy of more bytes than the source holds runs past its end.
pub copy_bytes_overrun :
    (rounds i off : ℕ) (src dst : List ℕ)
    → i ≤ length src
    → length src < i + rounds
    → copy_bytes rounds i off src dst ≡ none
unfolding copy_bytes
copy_bytes_overrun zero i off src dst hi h = absurd (omega arith)
copy_bytes_overrun (suc rounds) i off src dst hi h = elim (Option-cases (get_elem? src i)) [
  | inl e ↦ rw e
  | inr (x, e) ↦ rw e (elim (Option-cases (write_byte dst (off + i) x)) [
    | inl w ↦ rw w
    | inr (dst', w) ↦
        rw w (copy_bytes_overrun rounds (i + 1) off src dst' (get_elem?-lt src i x e) (omega arith))
  ])
]
