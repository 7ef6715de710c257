-- ===== src/Crypto/Primitives.antt =====
-- What gcrypto takes from Go's crypto, encoding and math packages. A byte is a number below 256, and
-- both a string and a []byte are a list of bytes.
use gokits.Prelude.{ℕ, ◌%◌, ◌≡◌, ◌↔◌, Option, some, List, length}

-- `Block` is `cipher.Block`; `cbc_encrypt` and `cbc_decrypt` are `CryptBlocks` of the CBC modes, given
-- the block, the vector and the text.
pub record Primitives (Block : Type 0) : Type 0 where
  pub new_cipher : List ℕ → Option Block
  pub cbc_encrypt : Block → List ℕ → List ℕ → List ℕ
  pub cbc_decrypt : Block → List ℕ → List ℕ → List ℕ
  pub hmac_sha256 : List ℕ → List ℕ → List ℕ
  pub base64_encode : List ℕ → List ℕ
  pub base64_decode : List ℕ → Option (List ℕ)
  pub constant_time_compare : List ℕ → List ℕ → ℕ

-- Their documented behaviour: AES takes a key of 16 bytes, CBC keeps the length of whole blocks and
-- is undone under the same key and vector, SHA-256 has 32 bytes, base64 is decoded to what was encoded, and
-- the comparison gives 1 exactly for equal bytes.
pub record IsLawful {Block : Type 0} (p : Primitives Block) : Type 0 where
  pub new_cipher_ok : (key : List ℕ) → length key ≡ 16 → (b : Block) × (p.new_cipher key ≡ some b)
  pub length_cbc_encrypt :
      (b : Block) (iv text : List ℕ)
      → length iv ≡ 16
      → length text % 16 ≡ 0
      → length (p.cbc_encrypt b iv text) ≡ length text
  pub length_cbc_decrypt :
      (b : Block) (iv text : List ℕ)
      → length iv ≡ 16
      → length text % 16 ≡ 0
      → length (p.cbc_decrypt b iv text) ≡ length text
  pub cbc_undone :
      (b : Block) (iv text : List ℕ)
      → length iv ≡ 16
      → length text % 16 ≡ 0
      → p.cbc_decrypt b iv (p.cbc_encrypt b iv text) ≡ text
  pub length_hmac : (key text : List ℕ) → length (p.hmac_sha256 key text) ≡ 32
  pub base64_undone : (text : List ℕ) → p.base64_decode (p.base64_encode text) ≡ some text
  pub compare_iff : (xs ys : List ℕ) → (p.constant_time_compare xs ys ≡ 1) ↔ (xs ≡ ys)
