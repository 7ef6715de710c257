-- ===== src/Gid.antt =====
-- gid/gstack.go: the number of the current goroutine, read out of its stack trace. Bytes are numbers,
-- an `int` that is negative is not in the model, and IntSize is 64.
pub mod Decimal
mod Tests
use gokits.Prelude.{
  ℕ, ◌+◌, ◌-◌, ◌*◌, ◌/◌, ◌%◌, ◌^◌, zero, suc, Bool, true, false, Option, none, some, List, [], ◌∷◌,
  length, take, drop, ltb, leb, ◌==◌, ◌&&◌, ◌||◌, if◌then◌else◌,
}

pub data Error : Type 0 where
  syntax range invalid_base : Error

-- The largest uint64.
abbrev pub max_uint64 : ℕ
max_uint64 = 2 ^ 64 - 1

unfoldable pub cutoff64 : ℕ → ℕ
cutoff64 base = if ltb base 2 then 0 else max_uint64 / base + 1

-- The value of a digit or a letter.
pub digit : ℕ → Option ℕ
digit d =
    if leb 48 d && leb d 57
    then some (d - 48)
    else if leb 97 d && leb d 122
    then some (d - 97 + 10)
    else if leb 65 d && leb d 90
    then some (d - 65 + 10)
    else none

-- The body of the loop from the value of the digit on: the next n, and the error.
pub accumulate : ℕ → ℕ → ℕ → ℕ → ℕ × Option Error
accumulate base max_val n v =
    if leb base v
    then (0, some syntax)
    else if leb (cutoff64 base) n
    then (max_uint64, some range)
    else let shifted = n * base % 2 ^ 64 in
      let n1 = (shifted + v) % 2 ^ 64 in
      if ltb n1 shifted || ltb max_val n1 then (max_uint64, some range) else (n1, none)

abbrev step : ℕ → ℕ → ℕ → Option ℕ → ℕ × Option Error
step base max_val n none = (0, some syntax)
step base max_val n (some v) = accumulate base max_val n v

-- The loop over the bytes.
pub parse_digits : ℕ → ℕ → List ℕ → ℕ → ℕ × Option Error
parse_digits base max_val [] n = (n, none)
parse_digits base max_val (d ∷ s) n =
    let (n1, e) = step base max_val n (digit d) in
    elim e [ some e' ↦ (n1, some e') | none ↦ parse_digits base max_val s n1 ]

-- The base that a prefix says, and the bytes after it.
abbrev base_of : List ℕ → ℕ × List ℕ
base_of [] = (10, [])
base_of (c ∷ []) = (if c == 48 then 8 else 10, c ∷ [])
base_of (c ∷ x ∷ s) =
    if (c == 48) && ((x == 120) || (x == 88))
    then (16, s)
    else (if c == 48 then 8 else 10, c ∷ x ∷ s)

abbrev parse_in_base : ℕ → ℕ → List ℕ → ℕ × Option Error
parse_in_base base max_val [] = (0, some syntax)
parse_in_base base max_val (d ∷ s) = parse_digits base max_val (d ∷ s) 0

-- `parseUintBytes`
pub parse_uint_bytes : List ℕ → ℕ → ℕ → ℕ × Option Error
parse_uint_bytes s base bit_size =
    let bits = if bit_size == 0 then 64 else bit_size in
    let max_val = (2 ^ bits % 2 ^ 64 + max_uint64) % 2 ^ 64 in
    if ltb (length s) 1
    then (0, some syntax)
    else if leb 2 base && leb base 36
    then parse_in_base base max_val s
    else if base == 0
    then (let (b, s') = base_of s in parse_in_base b max_val s')
    else (0, some invalid_base)

-- `goroutineSpace`
abbrev pub goroutine_space : List ℕ
goroutine_space = 103 ∷ 111 ∷ 114 ∷ 111 ∷ 117 ∷ 116 ∷ 105 ∷ 110 ∷ 101 ∷ 32 ∷ []

abbrev has_prefix : List ℕ → List ℕ → Bool
has_prefix b [] = true
has_prefix [] (c ∷ p) = false
has_prefix (d ∷ b) (c ∷ p) = (d == c) && has_prefix b p

-- `bytes.TrimPrefix`
abbrev trim_prefix : List ℕ → List ℕ → List ℕ
trim_prefix b p = if has_prefix b p then drop (length p) b else b

-- `bytes.IndexByte`
abbrev pub index_byte : List ℕ → ℕ → Option ℕ
index_byte [] c = none
index_byte (d ∷ b) c =
    let rest = index_byte b c in
    if d == c then some 0 else elim rest [ none ↦ none | some i ↦ some (i + 1) ]

abbrev pub number_of : ℕ × Option Error → Option ℕ
number_of (n, none) = some n
number_of (n, some e) = none

-- `GoID` after the prefix is trimmed; none is a panic.
pub read_id : List ℕ → Option ℕ
read_id b = elim (index_byte b 32) [
  | none ↦ none
  | some i ↦ number_of (parse_uint_bytes (take i b) 10 64)
]

-- `GoID` on the trace of the goroutine, of which `runtime.Stack` writes 64 bytes.
pub go_id : List ℕ → Option ℕ
go_id trace = read_id (trim_prefix (take 64 trace) goroutine_space)
