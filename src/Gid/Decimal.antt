-- ===== src/Gid/Decimal.antt =====
-- gid/gstack.go: decimal numbers.
use gokits.Prelude.{
  ◌≡◌, refl, ap, ◌∙◌, sym, ℕ, ◌+◌, ◌-◌, ◌*◌, ◌^◌, ◌≤◌, ◌<◌, zero, suc, Option, none, some, List, [],
  ◌∷◌, ◌++◌, length, take, ltb, if◌then◌else◌, Bool-cases, inl, inr, ltb→lt, ltb_false→le, arith,
}
use gokits.Gid.{
  Error, range, max_uint64, digit, accumulate, parse_digits, parse_uint_bytes, go_id, read_id,
  number_of, goroutine_space, index_byte,
}

-- The number that decimal digits write after the number n.
abbrev pub decimal_from : ℕ → List ℕ → ℕ
decimal_from n [] = n
decimal_from n (d ∷ ds) = decimal_from (n * 10 + d) ds

unfoldable pub AreDigits : List ℕ → Type 0
AreDigits [] = Unit {0}
AreDigits (d ∷ ds) = (d < 10) × AreDigits ds

-- The digits as bytes.
abbrev pub ascii : List ℕ → List ℕ
ascii [] = []
ascii (d ∷ ds) = (48 + d) ∷ ascii ds

decimal_from_le : (ds : List ℕ) (n : ℕ) → n ≤ decimal_from n ds
decimal_from_le [] n = omega arith
decimal_from_le (d ∷ ds) n = omega (arith, decimal_from_le ds (n * 10 + d))

digit_ascii : (d : ℕ) → d < 10 → digit (48 + d) ≡ some d
unfolding digit
digit_ascii d h = ground arith

accumulate_fits :
    (n d : ℕ) → d < 10 → n * 10 + d < 2 ^ 64 → accumulate 10 max_uint64 n d ≡ (n * 10 + d, none)
unfolding accumulate gokits.Gid.cutoff64
accumulate_fits n d h h' = ground arith

accumulate_overflows :
    (n d : ℕ)
    → n < 2 ^ 64
    → d < 10
    → 2 ^ 64 ≤ n * 10 + d
    → accumulate 10 max_uint64 n d ≡ (max_uint64, some range)
unfolding accumulate gokits.Gid.cutoff64
accumulate_overflows n d k h h' = ground arith

-- What the parser answers on a number.
abbrev pub in_uint64 : ℕ → ℕ × Option Error
in_uint64 n = if ltb n (2 ^ 64) then (n, none) else (max_uint64, some range)

in_uint64_large : (n : ℕ) → 2 ^ 64 ≤ n → in_uint64 n ≡ (max_uint64, some range)
in_uint64_large n h = ground arith

in_uint64_small : (n : ℕ) → n < 2 ^ 64 → in_uint64 n ≡ (n, none)
in_uint64_small n h = ground arith

parse_next :
    (c v n n1 : ℕ) (s : List ℕ)
    → digit c ≡ some v
    → accumulate 10 max_uint64 n v ≡ (n1, none)
    → parse_digits 10 max_uint64 (c ∷ s) n ≡ parse_digits 10 max_uint64 s n1
unfolding parse_digits
parse_next c v n n1 s h h' = ground (arith, h, h')

parse_stops :
    (c v n n1 : ℕ) (e : Error) (s : List ℕ)
    → digit c ≡ some v
    → accumulate 10 max_uint64 n v ≡ (n1, some e)
    → parse_digits 10 max_uint64 (c ∷ s) n ≡ (n1, some e)
unfolding parse_digits
parse_stops c v n n1 e s h h' = ground (arith, h, h')

parse_digits_lem :
    (ds : List ℕ) (n : ℕ)
    → AreDigits ds
    → n < 2 ^ 64
    → parse_digits 10 max_uint64 (ascii ds) n ≡ in_uint64 (decimal_from n ds)
unfolding parse_digits AreDigits
parse_digits_lem [] n p h = sym (in_uint64_small n h)
parse_digits_lem (d ∷ ds) n (p, ps) h = elim (Bool-cases (ltb (n * 10 + d) (2 ^ 64))) [
  | inl t ↦
      let fits = ltb→lt (n * 10 + d) (2 ^ 64) t in
      parse_next (48 + d) d n (n * 10 + d) (ascii ds) (digit_ascii d p) (accumulate_fits n d p fits)
      ∙ parse_digits_lem ds (n * 10 + d) ps fits
  | inr f ↦
      let over = ltb_false→le (n * 10 + d) (2 ^ 64) f in
      parse_stops (48 + d) d n max_uint64 range (ascii ds) (digit_ascii d p)
        (accumulate_overflows n d h p over)
      ∙ sym (in_uint64_large _ (omega (arith, over, decimal_from_le ds (n * 10 + d))))
]

-- `parseUintBytes` in base 10 and 64 bits reads one or more decimal digits as their number, exactly if
-- it fits in 64 bits: no wrap-around is taken for a result, and a larger number is a range error with
-- the largest uint64.
pub parse_decimal :
    (d : ℕ) (ds : List ℕ)
    → AreDigits (d ∷ ds)
    → parse_uint_bytes (ascii (d ∷ ds)) 10 64 ≡ in_uint64 (decimal_from 0 (d ∷ ds))
unfolding parse_uint_bytes
parse_decimal d ds p = ground (arith, parse_digits_lem (d ∷ ds) 0 p (omega arith))

take-trace :
    (n : ℕ) (ds rest : List ℕ)
    → length ds < n
    → take n (ascii ds ++ 32 ∷ rest) ≡ ascii ds ++ 32 ∷ take (n - length ds - 1) rest
take-trace zero ds rest h = absurd (omega arith)
take-trace (suc n) [] rest h = ap (λ k. 32 ∷ take k rest) (omega arith)
take-trace (suc n) (d ∷ ds) rest h =
    ap (λ l. (48 + d) ∷ l)
      (take-trace n ds rest (omega arith) ∙ ap (λ k. ascii ds ++ 32 ∷ take k rest) (omega arith))

index_byte-ascii : (ds rest : List ℕ) → index_byte (ascii ds ++ 32 ∷ rest) 32 ≡ some (length ds)
index_byte-ascii [] rest = refl
index_byte-ascii (d ∷ ds) rest = ground (arith, index_byte-ascii ds rest)

take-ascii : (ds rest : List ℕ) → take (length ds) (ascii ds ++ rest) ≡ ascii ds
take-ascii [] rest = refl
take-ascii (d ∷ ds) rest = ground (arith, take-ascii ds rest)

trimmed : (l : List ℕ) → go_id (goroutine_space ++ l) ≡ read_id (take 54 l)
unfolding go_id
trimmed l = refl

read_id_at :
    (b : List ℕ) (i : ℕ)
    → index_byte b 32 ≡ some i
    → read_id b ≡ number_of (parse_uint_bytes (take i b) 10 64)
unfolding read_id
read_id_at b i h = ground (arith, h)

number_of-in_uint64 : (n : ℕ) → number_of (in_uint64 n) ≡ (if ltb n (2 ^ 64) then some n else none)
number_of-in_uint64 n = ground arith

-- `GoID` returns the number of a goroutine from a trace that begins "goroutine N ", when N has at most
-- 53 digits, so that the buffer of 64 bytes holds it and the space after it; it panics exactly if N
-- does not fit in 64 bits.
pub go_id-ascii :
    (d : ℕ) (ds rest : List ℕ)
    → AreDigits (d ∷ ds)
    → length (d ∷ ds) ≤ 53
    → go_id (goroutine_space ++ (ascii (d ∷ ds) ++ 32 ∷ rest))
      ≡ (if ltb (decimal_from 0 (d ∷ ds)) (2 ^ 64) then some (decimal_from 0 (d ∷ ds)) else none)
go_id-ascii d ds rest p h =
    let text = ascii (d ∷ ds) in
    let tail = take (54 - length (d ∷ ds) - 1) rest in
    trimmed (text ++ 32 ∷ rest)
    ∙ ap (λ b. read_id b) (take-trace 54 (d ∷ ds) rest (omega arith))
    ∙ read_id_at (text ++ 32 ∷ tail) (length (d ∷ ds)) (index_byte-ascii (d ∷ ds) tail)
    ∙ ap (λ b. number_of (parse_uint_bytes b 10 64)) (take-ascii (d ∷ ds) (32 ∷ tail))
    ∙ ap (λ r. number_of r) (parse_decimal d ds p)
    ∙ number_of-in_uint64 (decimal_from 0 (d ∷ ds))
