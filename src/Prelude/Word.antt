-- ===== src/Prelude/Word.antt =====
-- Go's `int32` as a bit pattern below 2 ^ 32, with the order of the integers it stands for.
use gokits.Prelude.{ℕ, ◌+◌, ◌-◌, ◌*◌, ◌%◌, ◌^◌, Bool, ltb}

-- `a + b` on `int32`
abbrev pub add_i32 : ℕ → ℕ → ℕ
add_i32 a b = (a + b) % 2 ^ 32

-- The pattern of -1.
abbrev pub minus_one_i32 : ℕ
minus_one_i32 = 2 ^ 32 - 1

-- The signed order: adding 2 ^ 31 takes it to the order of the patterns.
abbrev pub lt_i32 : ℕ → ℕ → Bool
lt_i32 a b = ltb ((a + 2 ^ 31) % 2 ^ 32) ((b + 2 ^ 31) % 2 ^ 32)

-- `a * b` on `int64`, as a bit pattern.
abbrev pub mul_i64 : ℕ → ℕ → ℕ
mul_i64 a b = a * b % 2 ^ 64
