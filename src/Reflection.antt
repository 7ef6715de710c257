-- ===== src/Reflection.antt =====
-- gref/reflect.go: the text of a reflected value, and whether it is empty. A reflect.Value is what its
-- methods return, and strconv is an argument.
pub mod Empty
mod Tests
use gokits.Prelude.{ℕ, Bool, true, false, not, ◌&&◌, ◌||◌, ltb, ◌==◌, [], if◌then◌else◌}
use gokits.Prelude.Int.{ℤ, pos, negsuc}
use gokits.Prelude.Text.{Bytes}

-- `reflect.Kind`, in the order of its constants.
pub data Kind : Type 0 where
  invalid bool int int8 int16 int32 int64 uint uint8 uint16 uint32 uint64 uintptr float32 float64 :
      Kind
  complex64 complex128 array chan func interface map_of ptr slice string struct_of unsafe_pointer :
      Kind

abbrev pub number : Kind → ℕ
number invalid = 0
number bool = 1
number int = 2
number int8 = 3
number int16 = 4
number int32 = 5
number int64 = 6
number uint = 7
number uint8 = 8
number uint16 = 9
number uint32 = 10
number uint64 = 11
number uintptr = 12
number float32 = 13
number float64 = 14
number complex64 = 15
number complex128 = 16
number array = 17
number chan = 18
number func = 19
number interface = 20
number map_of = 21
number ptr = 22
number slice = 23
number string = 24
number struct_of = 25
number unsafe_pointer = 26

-- `k == c`
abbrev pub is : Kind → Kind → Bool
is k c = number k == number c

-- `c < k`
abbrev pub after : Kind → Kind → Bool
after c k = ltb (number c) (number k)

-- A value with floats `F`, by what the methods return that its kind allows.
pub record Value (F : Type 0) : Type 0 where
  pub kind : Kind
  pub bool_of : Bool
  pub int_of : ℤ
  pub uint_of : ℕ
  pub float_of : F
  pub complex_of : F × F
  pub len : ℕ
  pub is_nil : Bool

abbrev pub is_zero : ℤ → Bool
is_zero (pos n) = n == 0
is_zero (negsuc n) = false

module _ {F : Type 0} (float_zero : F → Bool) where
  -- `IsEmpty`
  pub is_empty : Value F → Bool
  is_empty v =
      if is v.kind bool
      then not v.bool_of
      else if after int v.kind && after v.kind int64
      then is_zero v.int_of
      else if after uint v.kind && after v.kind uintptr
      then v.uint_of == 0
      else if is v.kind float32 || is v.kind float64
      then float_zero v.float_of
      else if is v.kind array || (is v.kind map_of || (is v.kind slice || is v.kind string))
      then v.len == 0
      else if is v.kind interface || is v.kind ptr
      then v.is_nil
      else false

-- What the code takes of strconv; floats are formatted with two digits after the point.
pub record Texts (F : Type 0) : Type 0 where
  pub format_int : ℤ → Bytes
  pub format_uint : ℕ → Bytes
  pub format_float : F → Bytes

-- `ToString`
pub to_string : {F : Type 0} → Texts F → Value F → Bytes
to_string t v =
    if is v.kind int
      || (is v.kind int8 || (is v.kind int16 || (is v.kind int32 || is v.kind int64)))
    then t.format_int v.int_of
    else if is v.kind uint
        || (is v.kind uint8 || (is v.kind uint16 || (is v.kind uint32 || is v.kind uint64)))
    then t.format_uint v.uint_of
    else if is v.kind float32 || is v.kind float64
    then t.format_float v.float_of
    else []
