-- ===== src/Gid/Tests.antt =====
-- Runs of gid/gstack.go.
use gokits.Prelude.{◌≡◌, refl, none, some, [], ◌∷◌, ◌++◌, arith}
use gokits.Gid.{syntax, range, max_uint64, parse_uint_bytes, go_id, goroutine_space}
use gokits.Gid.Decimal.{AreDigits, parse_decimal, go_id-ascii}

digits : AreDigits (4 ∷ 7 ∷ 0 ∷ 7 ∷ [])
unfolding AreDigits
digits = (omega arith, (omega arith, (omega arith, (omega arith, tt))))

-- "0xfF", "09" in the base of their prefix, and "" in base 10.
hexadecimal : parse_uint_bytes (48 ∷ 120 ∷ 102 ∷ 70 ∷ []) 0 8 ≡ (255, none)
unfolding parse_uint_bytes gokits.Gid.parse_digits gokits.Gid.digit gokits.Gid.accumulate
    gokits.Gid.cutoff64
hexadecimal = refl

bad_octal : parse_uint_bytes (48 ∷ 57 ∷ []) 0 8 ≡ (0, some syntax)
unfolding parse_uint_bytes gokits.Gid.parse_digits gokits.Gid.digit gokits.Gid.accumulate
    gokits.Gid.cutoff64
bad_octal = refl

no_digits : parse_uint_bytes [] 10 64 ≡ (0, some syntax)
unfolding parse_uint_bytes
no_digits = refl

too_wide : parse_uint_bytes (50 ∷ 53 ∷ 54 ∷ []) 10 8 ≡ (max_uint64, some range)
unfolding parse_uint_bytes gokits.Gid.parse_digits gokits.Gid.digit gokits.Gid.accumulate
    gokits.Gid.cutoff64
too_wide = refl

parse_decimal_example : parse_uint_bytes (52 ∷ 55 ∷ 48 ∷ 55 ∷ []) 10 64 ≡ (4707, none)
parse_decimal_example = parse_decimal 4 (7 ∷ 0 ∷ 7 ∷ []) digits

go_id-ascii_example : go_id (goroutine_space ++ (52 ∷ 55 ∷ 48 ∷ 55 ∷ 32 ∷ 91 ∷ [])) ≡ some 4707
go_id-ascii_example = go_id-ascii 4 (7 ∷ 0 ∷ 7 ∷ []) (91 ∷ []) digits (omega arith)
