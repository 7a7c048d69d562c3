-- ===== src/Link/Laws.antt =====
-- Laws of sessions: commands in two parts, and memory writes cut into blocks.
use fpga_nes.Prelude.{
  ℕ, zero, suc, ◌+◌, ◌≤◌, ◌<◌, ◌≡◌, refl, sym, ap, ◌∙◌, List, [], ◌∷◌, ◌++◌, append_assoc, arith,
  length, length-take, take-append-drop, take, drop, All,
}
use fpga_nes.Memory.{u16}
use fpga_nes.Protocol.{Command, encode}
use fpga_nes.Hci.{next_addr}
use fpga_nes.Link.{Event, Board}
use fpga_nes.Link.Clocks.{writes, skip}
use fpga_nes.Link.Effects.{effects, cfg_after, encode_all, history, cfg_after_all}

pub encode_all-append :
    (xs ys : List Command) → encode_all (xs ++ ys) ≡ encode_all xs ++ encode_all ys
encode_all-append [] ys = refl
encode_all-append (c ∷ xs) ys =
    ap (λ l. encode c ++ l) (encode_all-append xs ys) ∙ sym (append_assoc (encode c) _ _)

pub history-append :
    (b : Board) (trace : List Event) (xs ys : List Command)
    → history b trace (xs ++ ys) ≡ history b (history b trace xs) ys
history-append b trace [] ys = refl
history-append b trace (c ∷ xs) ys = history-append b (trace ++ effects b trace c) xs ys

pub cfg_after_all-append :
    (cfg : ℕ) (xs ys : List Command)
    → cfg_after_all cfg (xs ++ ys) ≡ cfg_after_all (cfg_after_all cfg xs) ys
cfg_after_all-append cfg [] ys = refl
cfg_after_all-append cfg (c ∷ xs) ys = cfg_after_all-append (cfg_after cfg c) xs ys

pub All-append {ℓ κ} :
    {A : Type ℓ} (P : A → Type κ) (xs ys : List A) → All P xs → All P ys → All P (xs ++ ys)
All-append P [] ys hx hy = hy
All-append P (x ∷ xs) ys (h, hx) hy = (h, All-append P xs ys hx hy)

pub All-behind {ℓ κ} : {A : Type ℓ} (P : A → Type κ) (xs ys : List A) → All P (xs ++ ys) → All P ys
All-behind P [] ys h = h
All-behind P (x ∷ xs) ys (hx, h) = All-behind P xs ys h

pub All-take {ℓ κ} :
    {A : Type ℓ} (P : A → Type κ) (n : ℕ) (xs : List A) → All P xs → All P (take n xs)
All-take P zero xs h = tt
All-take P (suc n) [] h = tt
All-take P (suc n) (x ∷ xs) (hx, h) = (hx, All-take P n xs h)

pub All-drop {ℓ κ} :
    {A : Type ℓ} (P : A → Type κ) (n : ℕ) (xs : List A) → All P xs → All P (drop n xs)
All-drop P zero xs h = h
All-drop P (suc n) [] h = tt
All-drop P (suc n) (x ∷ xs) (hx, h) = All-drop P n xs h

pub writes-append :
    (ev : ℕ → ℕ → Event) (a : ℕ) (xs ys : List ℕ)
    → writes ev a (xs ++ ys) ≡ writes ev a xs ++ writes ev (skip a xs) ys
writes-append ev a [] ys = refl
writes-append ev a (x ∷ xs) ys = ap (λ l. ev a x ∷ l) (writes-append ev (next_addr a) xs ys)

pub skip_lem : (a : ℕ) (xs : List ℕ) → a < 65536 → skip a xs ≡ u16 (a + length xs)
skip_lem a [] h = omega arith
skip_lem a (x ∷ xs) h = omega (arith, skip_lem (next_addr a) xs (omega arith))

-- Writing a list in two parts, the second where the first one ends.
pub writes_split :
    (ev : ℕ → ℕ → Event) (base n : ℕ) (xs : List ℕ) (trace : List Event)
    → n ≤ length xs
    → (trace ++ writes ev (u16 base) (take n xs)) ++ writes ev (u16 (base + n)) (drop n xs)
      ≡ trace ++ writes ev (u16 base) xs
writes_split ev base n xs trace h =
    let e : u16 (base + n) ≡ skip (u16 base) (take n xs) =
      omega (arith, skip_lem (u16 base) (take n xs) (omega arith), length-take n xs h) in
    append_assoc trace _ _
    ∙ ap (λ a. trace ++ (writes ev (u16 base) (take n xs) ++ writes ev a (drop n xs))) e
    ∙ ap (λ l. trace ++ l) (sym (writes-append ev (u16 base) (take n xs) (drop n xs)))
    ∙ ap (λ l. trace ++ writes ev (u16 base) l) (take-append-drop n xs)
