-- ===== src/Crypto/Toy.antt =====
-- Primitives that run: a cipher that adds 1 to every byte.
use gokits.Prelude.{
  ◌≡◌, ◌↔◌, refl, ap, ap₂, ℕ, ◌+◌, ◌-◌, Bool, true, false, some, List, [], ◌∷◌, length,
  length-replicate, replicate, arith, ◌==◌, ◌&&◌,
}
use gokits.Crypto.Primitives.{Primitives, IsLawful}

abbrev pub up : List ℕ → List ℕ
up [] = []
up (x ∷ xs) = (x + 1) ∷ up xs

abbrev pub down : List ℕ → List ℕ
down [] = []
down (x ∷ xs) = (x - 1) ∷ down xs

pub length-up : (xs : List ℕ) → length (up xs) ≡ length xs
length-up [] = refl
length-up (x ∷ xs) = omega (arith, length-up xs)

pub length-down : (xs : List ℕ) → length (down xs) ≡ length xs
length-down [] = refl
length-down (x ∷ xs) = omega (arith, length-down xs)

pub down-up : (xs : List ℕ) → down (up xs) ≡ xs
down-up [] = refl
down-up (x ∷ xs) = ap₂ (λ y l. y ∷ l) (omega arith) (down-up xs)

abbrev same_bytes : List ℕ → List ℕ → Bool
same_bytes [] [] = true
same_bytes [] (y ∷ ys) = false
same_bytes (x ∷ xs) [] = false
same_bytes (x ∷ xs) (y ∷ ys) = (x == y) && same_bytes xs ys

abbrev as_int : Bool → ℕ
as_int true = 1
as_int false = 0

compare_iff_same : (xs ys : List ℕ) → (as_int (same_bytes xs ys) ≡ 1) ↔ (xs ≡ ys)
compare_iff_same [] [] = ground arith
compare_iff_same [] (y ∷ ys) = ground arith
compare_iff_same (x ∷ xs) [] = ground arith
compare_iff_same (x ∷ xs) (y ∷ ys) = ground (arith, compare_iff_same xs ys)

-- A block is its key.
abbrev pub toy : Primitives (List ℕ)
toy = record {
  new_cipher = λ key. some key;
  cbc_encrypt = λ b iv text. up text;
  cbc_decrypt = λ b iv text. down text;
  hmac_sha256 = λ key text. replicate 32 (length text);
  base64_encode = λ text. up text;
  base64_decode = λ text. some (down text);
  constant_time_compare = λ xs ys. as_int (same_bytes xs ys);
}

pub toy-IsLawful : IsLawful toy
toy-IsLawful = record {
  new_cipher_ok = λ key h. (key, refl);
  length_cbc_encrypt = λ b iv text h h'. length-up text;
  length_cbc_decrypt = λ b iv text h h'. length-down text;
  cbc_undone = λ b iv text h h'. down-up text;
  length_hmac = λ key text. length-replicate 32 (length text);
  base64_undone = λ text. ap (λ l. some l) (down-up text);
  compare_iff = compare_iff_same;
}
