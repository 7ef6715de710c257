-- ===== src/Strings/HumanBytes.antt =====
-- gstr/human_bytes.go: numbers of bytes as people write them. The regular expression's two groups,
-- float64 and strconv are an argument.
pub mod RoundTrip
mod Tests
use gokits.Prelude.{
  ℕ, ◌≡◌, Bool, true, false, ◌||◌, Option, none, some, ◌++◌, leb, ◌==◌, if◌then◌else◌,
}
use gokits.Prelude.Int.{ℤ, pos, negsuc}
use gokits.Prelude.Text.{Bytes, text, same_text}

-- `FormatInt` in base 10, the conversions of int64 and float64, `%.2f`, `ParseFloat`, whose error is
-- none, and the groups that `byteStrPattern` finds, none where the text does not match.
pub record HumanText (F : Type 0) : Type 0 where
  pub format_int : ℤ → Bytes
  pub of_int : ℤ → F
  pub to_int : F → ℤ
  pub div : F → F → F
  pub mul : F → F → F
  pub print : F → Bytes
  pub parse_float : Bytes → Option F
  pub submatch : Bytes → Option (Bytes × Bytes)

abbrev pub kb : ℕ
kb = 1024

abbrev pub mb : ℕ
mb = 1048576

abbrev pub gb : ℕ
gb = 1073741824

abbrev pub tb : ℕ
tb = 1099511627776

abbrev pub pb : ℕ
pb = 1125899906842624

abbrev pub eb : ℕ
eb = 1152921504606846976

-- `b >= u`, of a constant u.
abbrev pub at_least : ℤ → ℕ → Bool
at_least (pos n) u = leb u n
at_least (negsuc n) u = false

abbrev pub is_zero : ℤ → Bool
is_zero (pos n) = n == 0
is_zero (negsuc n) = false

abbrev pub one_of : Bytes → Bytes → Bytes → Bool
one_of s t multiple = same_text multiple s || same_text multiple t

module _ {F : Type 0} (h : HumanText F) where
  -- What `Sprintf` writes of the value and its multiple.
  abbrev pub in_unit : ℤ → ℕ → Bytes → Bytes
  in_unit b u multiple = h.print (h.div (h.of_int b) (h.of_int (pos u))) ++ multiple

  pub format : ℤ → Bytes
  format b =
      if at_least b eb
      then in_unit b eb (text "EB")
      else if at_least b pb
      then in_unit b pb (text "PB")
      else if at_least b tb
      then in_unit b tb (text "TB")
      else if at_least b gb
      then in_unit b gb (text "GB")
      else if at_least b mb
      then in_unit b mb (text "MB")
      else if at_least b kb
      then in_unit b kb (text "KB")
      else if is_zero b
      then text "0"
      else h.format_int b ++ text "B"

  -- The switch of `Parse`.
  abbrev pub scaled : F → Bytes → ℤ
  scaled x multiple =
      if one_of (text "K") (text "KB") multiple
      then h.to_int (h.mul x (h.of_int (pos kb)))
      else if one_of (text "M") (text "MB") multiple
      then h.to_int (h.mul x (h.of_int (pos mb)))
      else if one_of (text "G") (text "GB") multiple
      then h.to_int (h.mul x (h.of_int (pos gb)))
      else if one_of (text "T") (text "TB") multiple
      then h.to_int (h.mul x (h.of_int (pos tb)))
      else if one_of (text "P") (text "PB") multiple
      then h.to_int (h.mul x (h.of_int (pos pb)))
      else if one_of (text "E") (text "EB") multiple
      then h.to_int (h.mul x (h.of_int (pos eb)))
      else h.to_int x

  abbrev pub read_number : Option F → Bytes → Option ℤ
  read_number none multiple = none
  read_number (some x) multiple = some (scaled x multiple)

  abbrev pub read_groups : Option (Bytes × Bytes) → Option ℤ
  read_groups none = none
  read_groups (some (number, multiple)) = read_number (h.parse_float number) multiple

  -- `Parse`; none is an error.
  pub parse : Bytes → Option ℤ
  parse value = read_groups (h.submatch value)
