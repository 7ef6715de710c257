-- ===== src/Crypto/Aes.antt =====
-- gcrypto/aes128.go. A read of `rand.Reader` is an argument: the bytes read, or none for its error.
-- The slice that `encrypt` appends the padding to is a copy here.
pub mod Padding
pub mod RoundTrip
pub mod WorkKey
mod Tests
use gokits.Prelude.{
  ℕ, ◌+◌, ◌-◌, ◌/◌, ◌%◌, zero, suc, Bool, Option, none, some, List, [], ◌∷◌, ◌++◌, length, take,
  drop, get_elem?, ltb, leb, ◌==◌, ◌||◌, not, if◌then◌else◌,
}
use gokits.Crypto.Primitives.{Primitives}

-- `rand_error` and `base64_error` are errors of the packages, `cipher_error` that of `aes.NewCipher`.
pub data Error : Type 0 where
  cipher_error rand_error base64_error aes_text_size aes_padding invalid_key : Error

pub data Result {ℓ} (A : Type ℓ) : Type ℓ where
  ok : A → Result A
  err : Error → Result A
  panic : Result A

infixl 5 ◌>>=◌
abbrev pub ◌>>=◌ {ℓ κ} : {A : Type ℓ} {B : Type κ} → Result A → (A → Result B) → Result B
ok a >>= f = f a
err e >>= f = err e
panic >>= f = panic

abbrev pub or_err {ℓ} : {A : Type ℓ} → Error → Option A → Result A
or_err e none = err e
or_err e (some a) = ok a

abbrev pub block_size : ℕ
block_size = 16

abbrev key_root_iter_count : ℕ
key_root_iter_count = 5000

abbrev root_key_salt : List ℕ
root_key_salt =
    0x45 ∷ 0xEF ∷ 0x2F ∷ 0x62 ∷ 0xAB ∷ 0x9C ∷ 0xE8 ∷ 0x03 ∷ 0x28 ∷ 0xB1 ∷ 0xF2 ∷ 0x61 ∷ 0xDE ∷ 0xF1
    ∷ 0xD2 ∷ 0x58 ∷ []

-- `Crypto`
pub record Crypto (Block : Type 0) : Type 0 where
  pub root_block : Block
  pub root_key : List ℕ

-- The four bytes that `calKey` writes after the text.
abbrev pub count_bytes : ℕ → List ℕ
count_bytes i = i / 0x1000000 % 256 ∷ i / 0x10000 % 256 ∷ i / 0x100 % 256 ∷ i % 256 ∷ []

-- `normalKey`
pub normal_key : List ℕ → Result (List ℕ)
normal_key key = if leb block_size (length key) then ok (take block_size key) else panic

-- The loop of `encrypt` that appends the padding.
pub pad : ℕ → ℕ → List ℕ → List ℕ
pad zero pad_len src = src
pad (suc n) pad_len src = pad n pad_len (src ++ pad_len ∷ [])

-- `text[:low - n]` of a text of `low` bytes, out of range where n is more.
abbrev pub cut : ℕ → List ℕ → Result (List ℕ)
cut n text = if ltb (length text) n then panic else ok (take (length text - n) text)

-- `decrypt` after the length is checked: the padding is what the last byte says.
pub unpad : List ℕ → Result (List ℕ)
unpad text = elim (get_elem? text (length text - 1)) [
  | none ↦ panic
  | some padding_len ↦ if ltb 16 padding_len then err aes_padding else cut padding_len text
]

module _ {Block : Type 0} (p : Primitives Block) where
  -- The loop of `calKey` from `i`, with n rounds to go.
  root_key_loop : ℕ → ℕ → List ℕ → List ℕ
  root_key_loop zero i fbs = fbs
  root_key_loop (suc n) i fbs =
      root_key_loop n (i + 1) (p.hmac_sha256 root_key_salt (fbs ++ count_bytes i))

  -- `calKey`
  pub cal_key : List ℕ → Result (List ℕ)
  cal_key factor = normal_key (root_key_loop key_root_iter_count 0 factor)

  -- `NewCrypto` with `init`, where there is no error.
  pub new_crypto : List ℕ → Result (Crypto Block)
  new_crypto factor = do
    root_key ← cal_key factor
    block ← or_err cipher_error (p.new_cipher root_key)
    ok (record { root_block = block; root_key = root_key })

  -- `encrypt`
  pub encrypt_block : Block → Option (List ℕ) → List ℕ → Result (List ℕ)
  encrypt_block block read src = do
    let pad_len = block_size - length src % block_size
    let padded = pad pad_len pad_len src
    iv ← or_err rand_error read
    ok (iv ++ p.cbc_encrypt block iv padded)

  -- `decrypt`
  pub decrypt_block : Block → List ℕ → Result (List ℕ)
  decrypt_block block src =
      if ltb (length src) (block_size + block_size) || not (length src % block_size == 0)
      then err aes_text_size
      else unpad (p.cbc_decrypt block (take block_size src) (drop block_size src))

  -- `Encrypt`
  pub encrypt : Crypto Block → Option (List ℕ) → List ℕ → Result (List ℕ)
  encrypt c read src = encrypt_block c.root_block read src

  -- `Decrypt`
  pub decrypt : Crypto Block → List ℕ → Result (List ℕ)
  decrypt c src = decrypt_block c.root_block src

  -- `EncryptStr`
  pub encrypt_str : Crypto Block → Option (List ℕ) → List ℕ → Result (List ℕ)
  encrypt_str c read plain_text = do
    encrypted ← encrypt c read plain_text
    ok (p.base64_encode encrypted)

  -- `DecryptStr`
  pub decrypt_str : Crypto Block → List ℕ → Result (List ℕ)
  decrypt_str c encrypted_text = do
    src ← or_err base64_error (p.base64_decode encrypted_text)
    decrypt c src

  -- `EncryptWithKey`, which reads random bytes twice.
  pub encrypt_with_key :
      Crypto Block → Option (List ℕ) → Option (List ℕ) → List ℕ → List ℕ → Result (List ℕ × List ℕ)
  encrypt_with_key c read read' key plain_text =
      if ltb (length key) block_size then err invalid_key else do
        encrypted_key ← encrypt c read key
        work_key ← normal_key key
        block ← or_err cipher_error (p.new_cipher work_key)
        encrypted_text ← encrypt_block block read' plain_text
        ok (encrypted_key, encrypted_text)

  -- `EncryptStrWithKey`
  pub encrypt_str_with_key :
      Crypto Block → Option (List ℕ) → Option (List ℕ) → List ℕ → List ℕ → Result (List ℕ × List ℕ)
  encrypt_str_with_key c read read' key plain_text = do
    (encrypted_key, encrypted_text) ← encrypt_with_key c read read' key plain_text
    ok (p.base64_encode encrypted_key, p.base64_encode encrypted_text)

  -- `EncryptStrWithRandKey`, which reads the key first.
  pub encrypt_str_with_rand_key :
      Crypto Block
      → Option (List ℕ)
      → Option (List ℕ)
      → Option (List ℕ)
      → List ℕ
      → Result (List ℕ × List ℕ)
  encrypt_str_with_rand_key c read_key read read' plain_text = do
    key ← or_err rand_error read_key
    encrypt_str_with_key c read read' key plain_text

  -- `DecryptWithKey`
  pub decrypt_with_key : Crypto Block → List ℕ → List ℕ → Result (List ℕ)
  decrypt_with_key c encrypted_key encrypted_text = do
    plain_key ← decrypt c encrypted_key
    work_key ← normal_key plain_key
    block ← or_err cipher_error (p.new_cipher work_key)
    decrypt_block block encrypted_text

  -- `DecryptStrWithKey`
  pub decrypt_str_with_key : Crypto Block → List ℕ → List ℕ → Result (List ℕ)
  decrypt_str_with_key c encrypted_key encrypted_text = do
    src_key ← or_err base64_error (p.base64_decode encrypted_key)
    src_text ← or_err base64_error (p.base64_decode encrypted_text)
    decrypt_with_key c src_key src_text
