-- ===== src/Examples/TestRun.antt =====
-- Runs of test scripts.
use fpga_nes.Prelude.{ℕ, zero, suc, ◌≡◌, refl, true, false, inr, none, List, [], ◌∷◌, arith, length}
use fpga_nes.Strings.{IsAscii}
use fpga_nes.TestRun.{Script, test_script_dlg_run}
use fpga_nes.TestRun.Tally.{Fits}
use fpga_nes.TestRun.Unknown.{test_script_dlg_run-unknown}
use fpga_nes.TestRun.TooLong.{ShowsTooMuch, test_script_dlg_run-too_long}
use fpga_nes.Examples.{garbage}
use fpga_nes.Examples.Strings.{simple_crt, simple_crt-IsCrt}

-- A script that prints "hi" and passes.
abbrev pub passing : Script
passing = record {
  name = b'a' ∷ [];
  prints = record { is_string = true; text = b'h' ∷ b'i' ∷ [] } ∷ [];
  finished = true;
  returned = 0;
  error = [];
}

-- A script that Lua stops with the error "e".
abbrev broken : Script
broken = record { name = b'b' ∷ []; prints = []; finished = false; returned = 0; error = b'e' ∷ [] }

abbrev odd : Script
odd = record { name = b'c' ∷ []; prints = []; finished = true; returned = 3; error = [] }

pub passing-Fits : Fits passing
passing-Fits = record {
  name_set = (λ e. absurd (omega arith), tt);
  name_short = omega arith;
  prints = (
    record {
      string = refl;
      ascii = ((omega arith, omega arith), ((omega arith, omega arith), tt));
      plain = (
        (omega arith, λ e. absurd (omega arith)),
        ((omega arith, λ e. absurd (omega arith)), tt),
      );
      short = omega arith;
    },
    tt,
  );
  error = λ e. absurd (cc);
  verdict = omega arith;
}

test_script_dlg_run-unknown_example :
    test_script_dlg_run simple_crt garbage false true true (passing ∷ odd ∷ []) ≡ none
test_script_dlg_run-unknown_example =
    test_script_dlg_run-unknown simple_crt garbage false true true (passing ∷ []) odd []
      (omega arith)

-- An error of 1022 characters.
abbrev many : ℕ → List ℕ
many zero = []
many (suc n) = let rest = many n in b'e' ∷ rest

many-IsAscii : (n : ℕ) → IsAscii (many n)
many-IsAscii zero = tt
many-IsAscii (suc n) = ((omega arith, omega arith), many-IsAscii n)

length-many : (n : ℕ) → length (many n) ≡ n
length-many zero = refl
length-many (suc n) = let rest = length-many n in omega (arith, rest)

abbrev long : Script
long = record { name = b'd' ∷ []; prints = []; finished = false; returned = 0; error = many 1022 }

long-ShowsTooMuch : ShowsTooMuch long
long-ShowsTooMuch =
    let size = length-many 1022 in
    inr (record {
      failed = refl;
      ascii = many-IsAscii 1022;
      long = omega (arith, size);
      real = omega (arith, size);
    })

test_script_dlg_run-too_long_example :
    test_script_dlg_run simple_crt garbage false true true (passing ∷ long ∷ broken ∷ []) ≡ none
test_script_dlg_run-too_long_example =
    test_script_dlg_run-too_long simple_crt garbage false true true (passing ∷ []) long
      (broken ∷ []) simple_crt-IsCrt long-ShowsTooMuch
