-- ===== src/Strings/HumanBytes/Tests.antt =====
-- gstr/human_bytes.go: tests and examples.
use gokits.Prelude.{
  ℕ, zero, suc, ◌*◌, ◌/◌, ◌≡◌, refl, ap, Bool, false, ◌||◌, Option, none, some, [], ◌∷◌, ◌++◌,
  length, replicate, length-replicate, arith, ◌==◌, if◌then◌else◌,
}
use gokits.Prelude.Int.{ℤ, pos, negsuc}
use gokits.Prelude.Text.{Bytes, text}
use gokits.Strings.HumanBytes.{HumanText, format, parse}
use gokits.Strings.HumanBytes.RoundTrip.{
  Multiple, unit, letters, kilo, mega, giga, tera, peta, exa, IsHumanText, quarter, quarters,
  in_quarters, parse-format,
}

-- Quarters for the floats that are not negative. A number is so many digits 1 after a digit that tells
-- an integer, a negative one and a float apart.
abbrev tally : ℤ → Bytes
tally (pos n) = 48 ∷ replicate n 49
tally (negsuc n) = 45 ∷ replicate n 49

abbrev printed : ℤ → Bytes
printed (pos n) = 50 ∷ replicate n 49
printed (negsuc n) = 45 ∷ replicate n 49

abbrev float : ℤ → ℤ
float (pos n) = pos (4 * n)
float (negsuc n) = negsuc n

abbrev whole_part : ℤ → ℤ
whole_part (pos n) = pos (n / 4)
whole_part (negsuc n) = negsuc n

abbrev untally : Bytes → Option ℤ
untally [] = none
untally (b ∷ s) =
    some (
      if b == 48 then pos (4 * length s) else if b == 50 then pos (length s) else negsuc (length s))

abbrev is_digit : ℕ → Bool
is_digit b = b == 50 || b == 48 || (b == 45 || b == 49)

abbrev with_first : ℕ → Bytes × Bytes → Bytes × Bytes
with_first b (number, multiple) = (b ∷ number, multiple)

abbrev groups : Bytes → Bytes × Bytes
groups [] = ([], [])
groups (b ∷ s) = let rest = groups s in if is_digit b then with_first b rest else ([], b ∷ s)

abbrev divided : ℤ → ℤ → ℤ
divided (pos a) (pos zero) = pos 0
divided (pos a) (pos (suc b)) = pos (4 * a / suc b)
divided (pos a) (negsuc b) = pos 0
divided (negsuc a) b = negsuc a

abbrev times : ℤ → ℤ → ℤ
times (pos a) (pos b) = pos (a * b / 4)
times a b = pos 0

abbrev tallies : HumanText ℤ
tallies = record {
  format_int = tally;
  of_int = float;
  to_int = whole_part;
  div = divided;
  mul = times;
  print = printed;
  parse_float = untally;
  submatch = λ s. some (groups s);
}

groups-replicate :
    (n : ℕ) (b : ℕ) (s : Bytes)
    → is_digit b ≡ false
    → groups (replicate n 49 ++ (b ∷ s)) ≡ (replicate n 49, b ∷ s)
groups-replicate zero b s e = rw e refl
groups-replicate (suc n) b s e = ap (with_first 49) (groups-replicate n b s e)

groups-tally :
    (x : ℤ) (b : ℕ) (s : Bytes)
    → is_digit b ≡ false
    → groups (tally x ++ (b ∷ s)) ≡ (tally x, b ∷ s)
groups-tally (pos n) b s e = ap (with_first 48) (groups-replicate n b s e)
groups-tally (negsuc n) b s e = ap (with_first 45) (groups-replicate n b s e)

groups-printed :
    (x : ℤ) (b : ℕ) (s : Bytes)
    → is_digit b ≡ false
    → groups (printed x ++ (b ∷ s)) ≡ (printed x, b ∷ s)
groups-printed (pos n) b s e = ap (with_first 50) (groups-replicate n b s e)
groups-printed (negsuc n) b s e = ap (with_first 45) (groups-replicate n b s e)

groups-letters : (x : ℤ) (u : Multiple) → groups (printed x ++ letters u) ≡ (printed x, letters u)
groups-letters x kilo = groups-printed x 75 (text "B") refl
groups-letters x mega = groups-printed x 77 (text "B") refl
groups-letters x giga = groups-printed x 71 (text "B") refl
groups-letters x tera = groups-printed x 84 (text "B") refl
groups-letters x peta = groups-printed x 80 (text "B") refl
groups-letters x exa = groups-printed x 69 (text "B") refl

untally-tally : (x : ℤ) → untally (tally x) ≡ some (float x)
untally-tally (pos n) = ap (λ m. some (pos (4 * m))) (length-replicate n 49)
untally-tally (negsuc n) = ap (λ m. some (negsuc m)) (length-replicate n 49)

untally-printed : (x : ℤ) → untally (printed x) ≡ some x
untally-printed (pos n) = ap (λ m. some (pos m)) (length-replicate n 49)
untally-printed (negsuc n) = ap (λ m. some (negsuc m)) (length-replicate n 49)

whole_part-times :
    (m : ℕ) (u : Multiple)
    → whole_part (times (in_quarters tallies m u) (float (pos (unit u)))) ≡ pos (m * quarter u)
whole_part-times m kilo = ap pos (omega arith)
whole_part-times m mega = ap pos (omega arith)
whole_part-times m giga = ap pos (omega arith)
whole_part-times m tera = ap pos (omega arith)
whole_part-times m peta = ap pos (omega arith)
whole_part-times m exa = ap pos (omega arith)

tallies-IsHumanText : IsHumanText tallies
tallies-IsHumanText = record {
  submatch_zero = refl;
  float_zero = refl;
  submatch_int = λ b. ap some (groups-tally b 66 [] refl);
  float_pos = λ n h. untally-tally (pos n);
  float_neg = λ n h. untally-tally (negsuc n);
  int_pos = λ n h. ap pos (omega arith);
  int_neg = λ n h. refl;
  scale_exact = λ m u h k. whole_part-times m u;
  submatch_print = λ m u h. ap some (groups-letters (in_quarters tallies m u) u);
  float_print = λ m u h. untally-printed (in_quarters tallies m u);
}

-- 12.25 KB
parse-format_example : parse tallies (format tallies (pos (49 * quarter kilo))) ≡ some (pos 12544)
parse-format_example =
    parse-format tallies-IsHumanText (pos (49 * quarter kilo))
      (quarters 49 kilo (omega arith) (omega arith) (omega arith))
