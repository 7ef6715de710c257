-- ===== src/Strings/Join.antt =====
-- gstr/join.go. Text is a list of bytes; the buffer out of the pool is empty, since it was reset before
-- it went back.
pub mod RoundTrip
use gokits.Prelude.{
  ℕ, ◌-◌, ◌==◌, ◌≡◌, Bool, true, false, Option, none, some, List, [], ◌∷◌, ◌++◌, length, take,
  if◌then◌else◌,
}

abbrev pub Bytes : Type 0
Bytes = List ℕ

abbrev pub comma : ℕ
comma = 44

-- What join.go takes of strconv and strings, with int64 as `I`: `FormatInt` and `ParseInt` in base 10,
-- whose error is `none`, and `Split` at commas.
pub record Decimal (I : Type 0) : Type 0 where
  pub format : I → Bytes
  pub parse : Bytes → Option I
  pub split : Bytes → List Bytes

unfoldable pub IsCommaFree : Bytes → Type 0
IsCommaFree [] = Unit
IsCommaFree (b ∷ s) = ((b == comma) ≡ false) × IsCommaFree s

-- Every byte of the text is before the comma that comes next, or it is the last.
unfoldable pub separated : Bytes → List Bytes → Bytes
separated s [] = s
separated s (t ∷ ts) = s ++ (comma ∷ separated t ts)

unfoldable pub AllCommaFree : List Bytes → Type 0
AllCommaFree [] = Unit
AllCommaFree (s ∷ ss) = IsCommaFree s × AllCommaFree ss

-- Their documented behaviour: a formatted integer is not empty, has no comma and is read back, and
-- `Split` finds the texts between the commas.
pub record IsDecimal {I : Type 0} (d : Decimal I) : Type 0 where
  pub format_some : (i : I) → (length (d.format i) == 0) ≡ false
  pub format_comma : (i : I) → IsCommaFree (d.format i)
  pub parse_format : (i : I) → d.parse (d.format i) ≡ some i
  pub split_separated :
      (s : Bytes) (ss : List Bytes)
      → IsCommaFree s
      → AllCommaFree ss
      → d.split (separated s ss) ≡ s ∷ ss

module _ {I : Type 0} (d : Decimal I) where
  -- The loop of `JoinInts`: what it writes to the buffer.
  pub written : List I → Bytes
  written [] = []
  written (i ∷ is) = d.format i ++ (comma ∷ written is)

  -- `buf.Truncate`, where there is something to cut.
  pub truncated : Bytes → Bytes
  truncated [] = []
  truncated (b ∷ s) = take (length (b ∷ s) - 1) (b ∷ s)

  pub join_ints : List I → Bytes
  join_ints [] = []
  join_ints (i ∷ []) = d.format i
  join_ints (i ∷ j ∷ is) = truncated (written (i ∷ j ∷ is))

  -- The loop of `SplitInts`.
  pub parse_all : List Bytes → Option (List I)
  parse_all [] = some []
  parse_all (s ∷ ss) =
      let rest = parse_all ss in
      elim (d.parse s) [
        | none ↦ none
        | some i ↦ elim rest [ none ↦ none | some is ↦ some (i ∷ is) ]
      ]

  -- `SplitInts`; `none` is an error.
  pub split_ints : Bytes → Option (List I)
  split_ints [] = some []
  split_ints (b ∷ s) = parse_all (d.split (b ∷ s))
