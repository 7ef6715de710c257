-- ===== src/Reflection/Tests.antt =====
-- gref/reflect.go: tests and examples.
use gokits.Prelude.{ℕ, ◌≡◌, refl, Bool, true, false, ◌==◌, []}
use gokits.Prelude.Int.{pos}
use gokits.Prelude.Text.{text}
use gokits.Reflection.{
  Kind, Value, Texts, is_empty, to_string, int, int8, uint64, string, uintptr, chan,
}
use gokits.Reflection.Empty.{is_empty_lem}

abbrev zero_of : Kind → Value ℕ
zero_of k = record {
  kind = k;
  bool_of = false;
  int_of = pos 0;
  uint_of = 0;
  float_of = 0;
  complex_of = (0, 0);
  len = 0;
  is_nil = true;
}

abbrev float_zero : ℕ → Bool
float_zero x = x == 0

abbrev texts : Texts ℕ
texts = record {
  format_int = λ b. text "int";
  format_uint = λ n. text "uint";
  format_float = λ x. text "float";
}

int8_text : to_string texts (zero_of int8) ≡ text "int"
unfolding to_string
int8_text = refl

uint64_text : to_string texts (zero_of uint64) ≡ text "uint"
unfolding to_string
uint64_text = refl

uintptr_text : to_string texts (zero_of uintptr) ≡ []
unfolding to_string
uintptr_text = refl

nil_chan : is_empty float_zero (zero_of chan) ≡ false
nil_chan = is_empty_lem float_zero (zero_of chan)

empty_text : is_empty float_zero (zero_of string) ≡ true
empty_text = is_empty_lem float_zero (zero_of string)

is_empty_lem_example : is_empty float_zero (zero_of int) ≡ false
is_empty_lem_example = is_empty_lem float_zero (zero_of int)
