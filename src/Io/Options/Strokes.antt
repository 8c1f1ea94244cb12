-- ===== src/Io/Options/Strokes.antt =====
-- Numbers as strokes, with a reader that counts them, for src/atlas/io/options.cpp.
use Prim.Native.String.{String, len}
use Prim.Native.String.len
use atlas_simulator.Prelude.{ℕ, zero, suc, ◌≡◌, refl, ap, ◌∙◌, arith, Option, some, ==_iff}
use atlas_simulator.Io.Options.{FromChars, parse_value}
use atlas_simulator.Io.Options.Words.{ToChars}

abbrev strokes : ℕ → String
strokes zero = ""
strokes (suc n) = String.◌∷◌ "|" (strokes n)

len-strokes : (n : ℕ) → len (strokes n) ≡ n
len-strokes zero = refl
len-strokes (suc n) = len.cons "|" (strokes n) ∙ omega (arith, len-strokes n)

abbrev count_strokes : String → Option (ℕ × ℕ)
count_strokes text = some (len text, len text)

abbrev pub from : FromChars ℕ
from = record { u64 = count_strokes; u32 = count_strokes; real = count_strokes }

pub strokes_back : (n : ℕ) → parse_value count_strokes (strokes n) ≡ some n
unfolding parse_value
strokes_back n = rw ((==_iff (len (strokes n)) (len (strokes n))).1 refl) (ap some (len-strokes n))

abbrev pub to : ToChars from
to = record {
  u64 = strokes;
  u32 = strokes;
  real = strokes;
  u64_back = λ n h. strokes_back n;
  u32_back = λ n h. strokes_back n;
  real_back = strokes_back;
}
