-- ===== src/Reflection/Empty.antt =====
-- gref/reflect.go: which values IsEmpty takes for empty.
use gokits.Prelude.{◌≡◌, Bool, true, false, not, ◌&&◌, ◌==◌, refl}
use gokits.Reflection.{
  Kind, Value, is_zero, is_empty, invalid, bool, int, int8, int16, int32, int64, uint, uint8,
  uint16, uint32, uint64, uintptr, float32, float64, complex64, complex128, array, chan, func,
  interface, map_of, ptr, slice, string, struct_of, unsafe_pointer,
}

-- What has nothing in it, by its kind: false, a number zero, no element, nil, and the zero
-- reflect.Value, whose kind is invalid. A struct has its fields.
abbrev pub has_nothing : {F : Type 0} → (F → Bool) → Kind → Value F → Bool
has_nothing z invalid v = true
has_nothing z bool v = not v.bool_of
has_nothing z int v = is_zero v.int_of
has_nothing z int8 v = is_zero v.int_of
has_nothing z int16 v = is_zero v.int_of
has_nothing z int32 v = is_zero v.int_of
has_nothing z int64 v = is_zero v.int_of
has_nothing z uint v = v.uint_of == 0
has_nothing z uint8 v = v.uint_of == 0
has_nothing z uint16 v = v.uint_of == 0
has_nothing z uint32 v = v.uint_of == 0
has_nothing z uint64 v = v.uint_of == 0
has_nothing z uintptr v = v.uint_of == 0
has_nothing z float32 v = z v.float_of
has_nothing z float64 v = z v.float_of
has_nothing z complex64 v = z v.complex_of.0 && z v.complex_of.1
has_nothing z complex128 v = z v.complex_of.0 && z v.complex_of.1
has_nothing z array v = v.len == 0
has_nothing z chan v = v.is_nil
has_nothing z func v = v.is_nil
has_nothing z interface v = v.is_nil
has_nothing z map_of v = v.len == 0
has_nothing z ptr v = v.is_nil
has_nothing z slice v = v.len == 0
has_nothing z string v = v.len == 0
has_nothing z unsafe_pointer v = v.is_nil
has_nothing z struct_of v = false

-- The kinds of which IsEmpty is false throughout: those at the ends of the ranges that it tests by
-- strict comparisons, and those that it has no case for.
abbrev pub is_missed : Kind → Bool
is_missed invalid = true
is_missed int = true
is_missed int64 = true
is_missed uint = true
is_missed uintptr = true
is_missed complex64 = true
is_missed complex128 = true
is_missed chan = true
is_missed func = true
is_missed unsafe_pointer = true
is_missed k = false

and_true : (b : Bool) → b ≡ (b && true)
and_true true = refl
and_true false = refl

and_false : (b : Bool) → false ≡ (b && false)
and_false true = refl
and_false false = refl

-- IsEmpty is true of exactly the values with nothing in them, by their kind's own zero, length or nil,
-- of every kind but ten. Of those ten it is false throughout, also of int(0), int64(0), uint(0),
-- uintptr(0), a complex 0, a nil chan, a nil func, a nil unsafe.Pointer and the zero reflect.Value.
pub is_empty_lem :
    {F : Type 0} (float_zero : F → Bool) (v : Value F)
    → is_empty float_zero v ≡ (has_nothing float_zero v.kind v && not (is_missed v.kind))
unfolding is_empty
is_empty_lem z v = of_kind v.kind
  where
    of_kind :
        (k : Kind) → is_empty z (record v { kind = k }) ≡ (has_nothing z k v && not (is_missed k))
    of_kind invalid = and_false (true)
    of_kind bool = and_true (not v.bool_of)
    of_kind int = and_false (is_zero v.int_of)
    of_kind int8 = and_true (is_zero v.int_of)
    of_kind int16 = and_true (is_zero v.int_of)
    of_kind int32 = and_true (is_zero v.int_of)
    of_kind int64 = and_false (is_zero v.int_of)
    of_kind uint = and_false (v.uint_of == 0)
    of_kind uint8 = and_true (v.uint_of == 0)
    of_kind uint16 = and_true (v.uint_of == 0)
    of_kind uint32 = and_true (v.uint_of == 0)
    of_kind uint64 = and_true (v.uint_of == 0)
    of_kind uintptr = and_false (v.uint_of == 0)
    of_kind float32 = and_true (z v.float_of)
    of_kind float64 = and_true (z v.float_of)
    of_kind complex64 = and_false (z v.complex_of.0 && z v.complex_of.1)
    of_kind complex128 = and_false (z v.complex_of.0 && z v.complex_of.1)
    of_kind array = and_true (v.len == 0)
    of_kind chan = and_false (v.is_nil)
    of_kind func = and_false (v.is_nil)
    of_kind interface = and_true (v.is_nil)
    of_kind map_of = and_true (v.len == 0)
    of_kind ptr = and_true (v.is_nil)
    of_kind slice = and_true (v.len == 0)
    of_kind string = and_true (v.len == 0)
    of_kind struct_of = refl
    of_kind unsafe_pointer = and_false (v.is_nil)
