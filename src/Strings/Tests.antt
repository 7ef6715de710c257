-- ===== src/Strings/Tests.antt =====
-- The package gstr: tests and examples.
use gokits.Prelude.{
  ℕ, zero, suc, ◌==◌, ◌≡◌, refl, ap, ◌∙◌, Option, none, some, List, [], ◌∷◌, ◌++◌, length,
  replicate, length-replicate, arith, if◌then◌else◌,
}
use gokits.Strings.Join.{
  Bytes, comma, Decimal, IsCommaFree, AllCommaFree, separated, IsDecimal, join_ints, split_ints,
}
use gokits.Strings.Join.RoundTrip.{split_ints-join_ints}

-- A number as so many digits 1 after a 0.
abbrev tally : ℕ → Bytes
tally n = 48 ∷ replicate n 49

abbrev untally : Bytes → Option ℕ
untally [] = none
untally (b ∷ s) = some (length s)

abbrev before_comma : ℕ → List Bytes → List Bytes
before_comma b [] = (b ∷ []) ∷ []
before_comma b (s ∷ ss) = (b ∷ s) ∷ ss

abbrev split_bytes : Bytes → List Bytes
split_bytes [] = [] ∷ []
split_bytes (b ∷ s) =
    let rest = split_bytes s in if b == comma then [] ∷ rest else before_comma b rest

abbrev tallies : Decimal ℕ
tallies = record { format = tally; parse = untally; split = split_bytes }

replicate-IsCommaFree : (n : ℕ) → IsCommaFree (replicate n 49)
unfolding IsCommaFree
replicate-IsCommaFree zero = tt
replicate-IsCommaFree (suc n) = (refl, replicate-IsCommaFree n)

tally-IsCommaFree : (n : ℕ) → IsCommaFree (tally n)
unfolding IsCommaFree
tally-IsCommaFree n = (refl, replicate-IsCommaFree n)

split_bytes_last : (s : Bytes) → IsCommaFree s → split_bytes s ≡ s ∷ []
unfolding IsCommaFree
split_bytes_last [] h = refl
split_bytes_last (b ∷ s) (h, h') = rw (h, split_bytes_last s h') refl

split_bytes-comma :
    (s t : Bytes) → IsCommaFree s → split_bytes (s ++ (comma ∷ t)) ≡ s ∷ split_bytes t
unfolding IsCommaFree
split_bytes-comma [] t h = refl
split_bytes-comma (b ∷ s) t (h, h') = rw (h, split_bytes-comma s t h') refl

split_bytes-separated :
    (s : Bytes) (ss : List Bytes)
    → IsCommaFree s
    → AllCommaFree ss
    → split_bytes (separated s ss) ≡ s ∷ ss
unfolding separated AllCommaFree
split_bytes-separated s [] h a = split_bytes_last s h
split_bytes-separated s (t ∷ ts) h (h', a) =
    split_bytes-comma s (separated t ts) h ∙ ap (λ x. s ∷ x) (split_bytes-separated t ts h' a)

tallies-IsDecimal : IsDecimal tallies
tallies-IsDecimal = record {
  format_some = λ i. ground arith;
  format_comma = tally-IsCommaFree;
  parse_format = λ i. ap some (length-replicate i 49);
  split_separated = split_bytes-separated;
}

split_ints-join_ints_example :
    split_ints tallies (join_ints tallies (2 ∷ 0 ∷ 3 ∷ [])) ≡ some (2 ∷ 0 ∷ 3 ∷ [])
split_ints-join_ints_example = split_ints-join_ints tallies tallies-IsDecimal (2 ∷ 0 ∷ 3 ∷ [])
