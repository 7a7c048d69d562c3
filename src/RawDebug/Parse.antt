-- ===== src/RawDebug/Parse.antt =====
-- The parser of the raw debug interface, `CreateObjFromString` of sw/src/dbgpacket.cpp, on shown bytes
-- and on texts of digits.
use fpga_nes.Prelude.{
  ℕ, zero, suc, ◌+◌, ◌*◌, ◌/◌, ◌%◌, ◌≤◌, ◌<◌, ◌≡◌, refl, sym, ap, ap₂, ◌∙◌, ◌⊎◌, inl, inr, true,
  Option, some, none, List, [], ◌∷◌, ◌++◌, append_assoc, arith, length, length-append, get_elem?,
  drop, All, bit_and, bit_or, ◌==◌, if◌then◌else◌, ◌>>=◌,
}
use fpga_nes.Prelude.Bits.{low_nibble, join_nibbles}
use fpga_nes.Memory.{
  IsByte, u8, new_bytes, length-new_bytes, write_byte, write_byte-append, get_elem?-append_self,
}
use fpga_nes.RawDebug.{
  nibble, classify, put_nibble, read_nibbles, hex_digit, show_bytes, create_obj_from_string,
  packet_if,
}

classify-hex_digit : (n : ℕ) → n < 16 → classify (u8 (hex_digit n)) ≡ nibble n
unfolding classify
classify-hex_digit n h = ground arith

put_high :
    (done : List ℕ) (t n : ℕ) (tail : List ℕ)
    → put_nibble (done ++ t ∷ tail) (2 * length done) n ≡ some (done ++ n * 16 ∷ tail)
unfolding put_nibble
put_high done t n tail =
    let even : 2 * length done % 2 ≡ 0 = omega arith in
    let half : 2 * length done / 2 ≡ length done = omega arith in
    rw even (rw half (write_byte-append done t (n * 16) tail))

put_low :
    (done : List ℕ) (hi lo : ℕ) (tail : List ℕ)
    → hi < 16
    → lo < 16
    → put_nibble (done ++ hi * 16 ∷ tail) (2 * length done + 1) lo
      ≡ some (done ++ (hi * 16 + lo) ∷ tail)
unfolding put_nibble
put_low done hi lo tail h l =
    let odd : (2 * length done + 1) % 2 ≡ 1 = omega arith in
    let half : (2 * length done + 1) / 2 ≡ length done = omega arith in
    rw odd (
      rw half (
        rw (get_elem?-append_self done (hi * 16) tail)
          (rw (join_nibbles hi lo h l) (write_byte-append done (hi * 16) (hi * 16 + lo) tail))))

read_nibble :
    (ch n : ℕ) (text raw raw' : List ℕ) (idx : ℕ)
    → classify (u8 ch) ≡ nibble n
    → put_nibble raw idx n ≡ some raw'
    → read_nibbles (ch ∷ text) raw idx ≡ read_nibbles text raw' (idx + 1)
unfolding read_nibbles
read_nibble ch n text raw raw' idx digit put = rw (digit, read_nibbles) (rw put)

read_space :
    (text raw : List ℕ) (idx : ℕ) → read_nibbles (b' ' ∷ text) raw idx ≡ read_nibbles text raw idx
unfolding read_nibbles classify
read_space text raw idx = refl

-- One shown byte, read into the place behind `done`.
read_byte :
    (byte : ℕ) (text done : List ℕ) (t : ℕ) (tail : List ℕ)
    → IsByte byte
    → read_nibbles
        (hex_digit (byte / 16) ∷ hex_digit (bit_and byte 0xF) ∷ b' ' ∷ text)
        (done ++ t ∷ tail)
        (2 * length done)
      ≡ read_nibbles text (done ++ byte ∷ tail) (2 * length done + 1 + 1)
read_byte byte text done t tail h =
    let hi : byte / 16 < 16 = omega arith in
    let lo : byte % 16 < 16 = omega arith in
    let joined : byte / 16 * 16 + byte % 16 ≡ byte = omega arith in
    let digit = ap hex_digit (low_nibble byte h) in
    read_nibble (hex_digit (byte / 16)) (byte / 16) _ _ _ _ (classify-hex_digit (byte / 16) hi)
      (put_high done t (byte / 16) tail)
    ∙ read_nibble (hex_digit (bit_and byte 0xF)) (byte % 16) _ _ _ _
        (ap (λ d. classify (u8 d)) digit ∙ classify-hex_digit (byte % 16) lo)
        (put_low done (byte / 16) (byte % 16) tail hi lo)
    ∙ read_space text _ _
    ∙ ap (λ v. read_nibbles text (done ++ v ∷ tail) (2 * length done + 1 + 1)) joined

-- The loop on shown bytes, with `done` behind it.
pub read_nibbles-show_bytes :
    (bytes done tail : List ℕ)
    → All IsByte bytes
    → length bytes ≤ length tail
    → read_nibbles (show_bytes bytes) (done ++ tail) (2 * length done)
      ≡ some (true, done ++ (bytes ++ drop (length bytes) tail), 2 * (length done + length bytes))
unfolding read_nibbles show_bytes
read_nibbles-show_bytes [] done tail h l =
    let n : length done + 0 ≡ length done = omega arith in rw n
read_nibbles-show_bytes (x ∷ bytes) done [] h l = absurd (omega arith)
read_nibbles-show_bytes (x ∷ bytes) done (t ∷ tail) h l =
    let idx : 2 * length done + 1 + 1 ≡ 2 * length (done ++ x ∷ []) =
      omega (arith, length-append done (x ∷ [])) in
    let count : 2 * (length (done ++ x ∷ []) + length bytes)
        ≡ 2 * (length done + suc (length bytes)) =
      omega (arith, length-append done (x ∷ [])) in
    read_byte x (show_bytes bytes) done t tail h.0
    ∙ ap₂ (λ m i. read_nibbles (show_bytes bytes) m i) (sym (append_assoc done (x ∷ []) tail)) idx
    ∙ read_nibbles-show_bytes bytes (done ++ x ∷ []) tail h.1 (omega arith)
    ∙ ap₂ (λ m i. some (true, m, i))
        (append_assoc done (x ∷ []) (bytes ++ drop (length bytes) tail)) count

length-show_bytes : (bytes : List ℕ) → length (show_bytes bytes) ≡ length bytes * 3
unfolding show_bytes
length-show_bytes [] = refl
length-show_bytes (x ∷ bytes) = omega (arith, length-show_bytes bytes)

-- A shown list of bytes, parsed: the raw data is the list with heap garbage behind it.
pub create_obj-show_bytes :
    (garbage : ℕ → ℕ) (bytes : List ℕ)
    → All IsByte bytes
    → (extra : List ℕ) × (create_obj_from_string garbage (show_bytes bytes)
        ≡ packet_if garbage (true, bytes ++ extra, 2 * length bytes))
unfolding create_obj_from_string
create_obj-show_bytes garbage bytes h =
    let raw = new_bytes garbage (length (show_bytes bytes) / 2) in
    let zero_add : 0 + length bytes ≡ length bytes = omega arith in
    let fits : length bytes ≤ length raw =
      omega (
        arith,
        length-show_bytes bytes,
        length-new_bytes garbage (length (show_bytes bytes) / 2),
      ) in
    (
      drop (length bytes) raw,
      rw (read_nibbles-show_bytes bytes [] raw h fits)
          (ap (λ n. packet_if garbage (true, bytes ++ drop (length bytes) raw, 2 * n)) zero_add),
    )

-- A text of digits alone.
abbrev pub IsDigit : ℕ → Type 0
IsDigit ch = (n : ℕ) × (classify (u8 ch) ≡ nibble n)

length-write_byte :
    (m : List ℕ) (i v : ℕ)
    → (write_byte m i v ≡ none)
      ⊎ ((m' : List ℕ) × (write_byte m i v ≡ some m') × (length m' ≡ length m) × i < length m)
length-write_byte [] i v = inl refl
length-write_byte (x ∷ m) zero v = inr (v ∷ m, refl, refl, omega arith)
length-write_byte (x ∷ m) (suc i) v = elim (length-write_byte m i v) [
  | inl e ↦ inl (rw e)
  | inr (m', e, l, b) ↦ inr (x ∷ m', rw e, ap suc l, omega arith)
]

length-store :
    (raw : List ℕ) (i : ℕ) (o : Option ℕ)
    → ((do b ← o; write_byte raw i b) ≡ none)
      ⊎ ((raw' : List ℕ) × ((do b ← o; write_byte raw i b) ≡ some raw')
          × (length raw' ≡ length raw)
          × i < length raw)
length-store raw i none = inl refl
length-store raw i (some b) = length-write_byte raw i b

length-put_nibble :
    (raw : List ℕ) (idx n : ℕ)
    → (put_nibble raw idx n ≡ none)
      ⊎ ((raw' : List ℕ) × (put_nibble raw idx n ≡ some raw')
          × (length raw' ≡ length raw)
          × idx / 2 < length raw)
unfolding put_nibble
length-put_nibble raw idx n = length-store raw (idx / 2) (
    if idx % 2 == 1 then (do old ← get_elem? raw (idx / 2); some (bit_or old n)) else some (n * 16))

-- More digits than the buffer has nibbles.
read_nibbles-overflow :
    (text raw : List ℕ) (idx : ℕ)
    → All IsDigit text
    → 2 * length raw < idx + length text
    → idx ≤ 2 * length raw
    → read_nibbles text raw idx ≡ none
unfolding read_nibbles
read_nibbles-overflow [] raw idx h l le = absurd (omega arith)
read_nibbles-overflow (ch ∷ text) raw idx h l le = elim (length-put_nibble raw idx h.0.0) [
  | inl e ↦ rw (h.0.1, read_nibbles) (rw e)
  | inr (raw', e, same, b) ↦
      read_nibble ch h.0.0 text raw raw' idx h.0.1 e
      ∙ read_nibbles-overflow text raw' (idx + 1) h.1 (omega arith) (omega arith)
]

-- A text of digits alone, an odd number of them: the parser leaves its buffer, which has half as many
-- bytes as the text has characters, whatever fresh memory held.
pub create_obj-odd :
    (garbage : ℕ → ℕ) (text : List ℕ)
    → All IsDigit text
    → length text % 2 ≡ 1
    → create_obj_from_string garbage text ≡ none
unfolding create_obj_from_string
create_obj-odd garbage text h odd =
    let size = length-new_bytes garbage (length text / 2) in
    rw (
      read_nibbles-overflow text (new_bytes garbage (length text / 2)) 0 h (omega (arith, size))
        (omega arith))
