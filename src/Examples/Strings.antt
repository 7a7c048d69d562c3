-- ===== src/Examples/Strings.antt =====
-- A C library that keeps its documentation, and strings.
use fpga_nes.Prelude.{
  ℕ, ◌+◌, ◌<◌, ◌≤◌, ◌≡◌, refl, ap, ap₂, ◌∙◌, true, false, some, none, List, [], ◌∷◌, ◌++◌, length,
  length-append, length-drop, take, drop, arith, ltb, ◌==◌, if◌then◌else◌, Option, ◌&&◌,
}
use fpga_nes.Strings.{Crt, IsCrt, Reads, IsText, IsPlain}

-- The text of a string.
abbrev text_of : List ℕ → List ℕ
text_of [] = []
text_of (ch ∷ s) = let rest = text_of s in if ch == 0 then [] else ch ∷ rest

-- A text and a 0 at the start of a buffer.
abbrev put : List ℕ → List ℕ → List ℕ
put text dest = text ++ 0 ∷ drop (length text + 1) dest

-- The text of a format, with each "%s" replaced by an argument.
abbrev expand : List ℕ → List (List ℕ) → List ℕ
expand [] args = []
expand (ch ∷ []) args = ch ∷ []
expand (ch ∷ next ∷ fmt) [] = ch ∷ expand (next ∷ fmt) []
expand (ch ∷ next ∷ fmt) (arg ∷ args) =
    let plain = expand (next ∷ fmt) (arg ∷ args) in
    let filled = text_of arg ++ expand fmt args in
    if ch == b'%' && next == b's' then filled else ch ∷ plain

abbrev if_fits : ℕ → List ℕ → Option (List ℕ)
if_fits size text = if ltb (length text) size then some text else none

abbrev pub simple_crt : Crt
simple_crt = record {
  tcslen = λ s. length (text_of s);
  tcscpy_s = λ dest size src. put (text_of src) dest;
  tcscat_s = λ dest size src. put (text_of dest ++ text_of src) dest;
  wcstombs_s = λ dest size src count. put (take count src) dest;
  mbstowcs_s = λ dest size src count. put (take count src) dest;
  vstprintf_s = λ size fmt args. if_fits size (expand (text_of fmt) args);
}

text_of_lem : (text rest : List ℕ) → IsText text → text_of (text ++ 0 ∷ rest) ≡ text
text_of_lem [] rest h = refl
text_of_lem (ch ∷ text) rest (set, h) =
    let here : (ch == 0) ≡ false = ground (arith, set) in
    rw here (ap (λ l. ch ∷ l) (text_of_lem text rest h))

take_text : (text rest : List ℕ) → take (length text) (text ++ rest) ≡ text
take_text [] rest = refl
take_text (ch ∷ text) rest = ap (λ l. ch ∷ l) (take_text text rest)

length-put : (text dest : List ℕ) → length text < length dest → length (put text dest) ≡ length dest
length-put text dest fits =
    let rest = drop (length text + 1) dest in
    omega (arith, length-append text (0 ∷ rest), length-drop (length text + 1) dest)

-- What is put into a buffer of a size.
fills :
    (given text dest : List ℕ) (size : ℕ)
    → given ≡ text
    → length dest ≡ size
    → length text < size
    → Reads (put given dest) text × (length (put given dest) ≡ size)
fills given text dest size same sized fits =
    rw same ((drop (length text + 1) dest, refl), length-put text dest (omega arith) ∙ sized)

IsText-plain : (text : List ℕ) → IsPlain text → IsText text
IsText-plain [] h = tt
IsText-plain (ch ∷ text) ((low, other), h) = (λ e. omega arith, IsText-plain text h)

text_of_fmt :
    (before after rest : List ℕ)
    → IsPlain before
    → IsPlain after
    → text_of (before ++ b'%' ∷ b's' ∷ (after ++ 0 ∷ rest)) ≡ before ++ b'%' ∷ b's' ∷ after
text_of_fmt [] after rest h h' =
    ap (λ l. b'%' ∷ b's' ∷ l) (text_of_lem after rest (IsText-plain after h'))
text_of_fmt (ch ∷ before) after rest ((low, other), h) h' =
    let here : (ch == 0) ≡ false = ground (arith, low) in
    rw here (ap (λ l. ch ∷ l) (text_of_fmt before after rest h h'))

expand-plain : (text : List ℕ) → expand text [] ≡ text
expand-plain [] = refl
expand-plain (ch ∷ []) = refl
expand-plain (ch ∷ next ∷ text) = ap (λ l. ch ∷ l) (expand-plain (next ∷ text))

expand-fmt :
    (before after arg : List ℕ)
    → IsPlain before
    → expand (before ++ b'%' ∷ b's' ∷ after) (arg ∷ []) ≡ before ++ (text_of arg ++ after)
expand-fmt [] after arg h = ap (λ l. text_of arg ++ l) (expand-plain after)
expand-fmt (ch ∷ []) after arg ((low, other), h) =
    let here : (ch == b'%') ≡ false = ground (arith, other) in
    rw here (ap (λ l. ch ∷ l) (expand-fmt [] after arg h))
expand-fmt (ch ∷ next ∷ before) after arg ((low, other), h) =
    let here : (ch == b'%') ≡ false = ground (arith, other) in
    rw here (ap (λ l. ch ∷ l) (expand-fmt (next ∷ before) after arg h))

-- The text that a format with one "%s" prints.
printed :
    (before after text rest rest' : List ℕ)
    → IsPlain before
    → IsPlain after
    → IsText text
    → expand (text_of (before ++ b'%' ∷ b's' ∷ (after ++ 0 ∷ rest'))) ((text ++ 0 ∷ rest) ∷ [])
      ≡ before ++ (text ++ after)
printed before after text rest rest' h h' set =
    ap (λ l. expand l ((text ++ 0 ∷ rest) ∷ [])) (text_of_fmt before after rest' h h')
    ∙ expand-fmt before after (text ++ 0 ∷ rest) h
    ∙ ap (λ l. before ++ (l ++ after)) (text_of_lem text rest set)

length-printed :
    (before text after : List ℕ)
    → length (before ++ (text ++ after)) ≡ length before + (length text + length after)
length-printed before text after =
    omega (arith, length-append before (text ++ after), length-append text after)

fits_lem : (size : ℕ) (text : List ℕ) → length text < size → if_fits size text ≡ some text
fits_lem size text h =
    let inside : ltb (length text) size ≡ true = ground (arith, h) in rw inside refl

no_fit : (size : ℕ) (text : List ℕ) → size ≤ length text → if_fits size text ≡ none
no_fit size text h =
    let outside : ltb (length text) size ≡ false = ground (arith, h) in rw outside refl

plain_printed : (text rest : List ℕ) → IsPlain text → expand (text_of (text ++ 0 ∷ rest)) [] ≡ text
plain_printed text rest h =
    ap (λ l. expand l []) (text_of_lem text rest (IsText-plain text h)) ∙ expand-plain text

pub simple_crt-IsCrt : IsCrt simple_crt
simple_crt-IsCrt = record {
  len = λ text rest h. ap length (text_of_lem text rest h);
  copy = λ dest size text rest h sized fits.
      fills _ text dest size (text_of_lem text rest h) sized fits;
  append = λ size text rest more rest' h h' sized fits.
      fills _ (text ++ more) (text ++ 0 ∷ rest) size
        (ap₂ (λ x y. x ++ y) (text_of_lem text rest h) (text_of_lem more rest' h')) sized
        (omega (arith, length-append text more));
  narrow = λ dest size text rest h sized fits.
      fills _ text dest size (take_text text (0 ∷ rest)) sized fits;
  widen = λ dest size text rest h sized fits.
      fills _ text dest size (take_text text (0 ∷ rest)) sized fits;
  print_plain = λ size text rest h fits.
      ap (if_fits size) (plain_printed text rest h) ∙ fits_lem size text fits;
  print_too_long = λ size text rest h long.
      ap (if_fits size) (plain_printed text rest h) ∙ no_fit size text long;
  print_string = λ size before after text rest rest' h h' set fits.
      ap (if_fits size) (printed before after text rest rest' h h' set)
      ∙ fits_lem size _ (omega (arith, length-printed before text after));
  print_string_too_long = λ size before after text rest rest' h h' set long.
      ap (if_fits size) (printed before after text rest rest' h h' set)
      ∙ no_fit size _ (omega (arith, length-printed before text after));
}
