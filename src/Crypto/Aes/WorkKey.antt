-- ===== src/Crypto/Aes/WorkKey.antt =====
-- gcrypto/aes128.go: texts under a work key, and the root key.
use gokits.Prelude.{
  ◌≡◌, lt→ltb, refl, ap, ◌∙◌, ℕ, ◌+◌, ◌≤◌, ◌<◌, zero, suc, some, Option, List, length, take, arith,
}
use gokits.Crypto.Primitives.{Primitives, IsLawful}
use gokits.Crypto.Aes.{
  Crypto, ok, err, panic, invalid_key, ◌>>=◌, normal_key, new_crypto, cal_key, encrypt, decrypt,
  encrypt_with_key, decrypt_with_key, encrypt_str_with_key, decrypt_str_with_key, root_key_loop,
}
use gokits.Crypto.Aes.RoundTrip.{sealed, length-take, decrypt_block-sealed, encrypt_sealed}

normal_key_ok : (key : List ℕ) → 16 ≤ length key → normal_key key ≡ ok (take 16 key)
unfolding normal_key
normal_key_ok key h = ground arith

module _ {Block : Type 0} {p : Primitives Block} (laws : IsLawful p) where
  -- The block cipher of a work key.
  work_block :
      (key : List ℕ) → 16 ≤ length key → (b : Block) × (p.new_cipher (take 16 key) ≡ some b)
  work_block key h = laws.new_cipher_ok (take 16 key) (length-take 16 key h)

  encrypt_with_key_lem :
      (c : Crypto Block) (iv iv' key text : List ℕ) (b : Block)
      → 16 ≤ length key
      → p.new_cipher (take 16 key) ≡ some b
      → encrypt_with_key p c (some iv) (some iv') key text
        ≡ ok (sealed p c.root_block iv key, sealed p b iv' text)
  unfolding encrypt_with_key encrypt
  encrypt_with_key_lem c iv iv' key text b h e = ground (
    arith,
    e,
    h,
    normal_key_ok key h,
    encrypt_sealed laws c.root_block iv key,
    encrypt_sealed laws b iv' text,
  )

  decrypt_with_key_lem :
      (c : Crypto Block) (iv iv' key text : List ℕ) (b : Block)
      → 16 ≤ length key
      → length iv ≡ 16
      → length iv' ≡ 16
      → p.new_cipher (take 16 key) ≡ some b
      → decrypt_with_key p c (sealed p c.root_block iv key) (sealed p b iv' text) ≡ ok text
  unfolding decrypt_with_key decrypt
  decrypt_with_key_lem c iv iv' key text b h h' h'' e = ground (
    arith,
    e,
    normal_key_ok key h,
    decrypt_block-sealed laws c.root_block iv key h',
    decrypt_block-sealed laws b iv' text h'',
  )

  -- `DecryptWithKey` gives back every text that `EncryptWithKey` was given with a key of at least 16
  -- bytes, under the same root key, when 16 random bytes are read each time and the packages behave
  -- as documented; with a shorter key `EncryptWithKey` is refused, whatever is read.
  pub decrypt_with_key-encrypt_with_key :
      (c : Crypto Block) (iv iv' key text : List ℕ) (read read' : Option (List ℕ))
      → length iv ≡ 16
      → length iv' ≡ 16
      → (16 ≤ length key
          → (encrypt_with_key p c (some iv) (some iv') key text >>= λ (k, t).
              decrypt_with_key p c k t)
            ≡ ok text)
        × (length key < 16 → encrypt_with_key p c read read' key text ≡ err invalid_key)
  unfolding encrypt_with_key
  decrypt_with_key-encrypt_with_key c iv iv' key text read read' h h' = (
    (λ k.
        let (b, e) = work_block key k in
        ap (λ r. r >>= λ (k, t). decrypt_with_key p c k t)
          (encrypt_with_key_lem c iv iv' key text b k e)
        ∙ decrypt_with_key_lem c iv iv' key text b k h h' e),
    λ k. rw (lt→ltb (length key) 16 k) refl,
  )

  -- The same in base64: `DecryptStrWithKey` gives back what `EncryptStrWithKey` was given.
  pub decrypt_str_with_key-encrypt_str_with_key :
      (c : Crypto Block) (iv iv' key text : List ℕ)
      → length iv ≡ 16
      → length iv' ≡ 16
      → 16 ≤ length key
      → (encrypt_str_with_key p c (some iv) (some iv') key text >>= λ (k, t).
          decrypt_str_with_key p c k t)
        ≡ ok text
  unfolding encrypt_str_with_key decrypt_str_with_key
  decrypt_str_with_key-encrypt_str_with_key c iv iv' key text h h' k =
      let (b, e) = work_block key k in
      ground (
        arith,
        encrypt_with_key_lem c iv iv' key text b k e,
        decrypt_with_key_lem c iv iv' key text b k h h' e,
        laws.base64_undone (sealed p c.root_block iv key),
        laws.base64_undone (sealed p b iv' text),
      )

  -- `DecryptWithKey` panics on a key that `Encrypt` made of fewer than 16 bytes, whatever the text,
  -- when 16 random bytes were read and the packages behave as documented.
  pub short_key_panics :
      (c : Crypto Block) (iv key text : List ℕ)
      → length iv ≡ 16
      → length key < 16
      → (encrypt p c (some iv) key >>= λ k. decrypt_with_key p c k text) ≡ panic
  unfolding encrypt decrypt_with_key decrypt normal_key
  short_key_panics c iv key text h h' = ground (
    arith,
    encrypt_sealed laws c.root_block iv key,
    decrypt_block-sealed laws c.root_block iv key h,
    h',
  )

  length-root_key_loop :
      (n i : ℕ) (fbs : List ℕ) → length fbs ≡ 32 → length (root_key_loop p n i fbs) ≡ 32
  unfolding root_key_loop
  length-root_key_loop zero i fbs h = h
  length-root_key_loop (suc n) i fbs h = length-root_key_loop n (i + 1) _ (laws.length_hmac _ _)

  length-root_keys : (n i : ℕ) (fbs : List ℕ) → 0 < n → length (root_key_loop p n i fbs) ≡ 32
  unfolding root_key_loop
  length-root_keys zero i fbs h = absurd (omega arith)
  length-root_keys (suc n) i fbs h = length-root_key_loop n (i + 1) _ (laws.length_hmac _ _)

  cal_key_ok : (factor : List ℕ) → (key : List ℕ) × (cal_key p factor ≡ ok key) × (length key ≡ 16)
  unfolding cal_key
  cal_key_ok factor =
      let fbs = root_key_loop p 5000 0 factor in
      let len = length-root_keys 5000 0 factor (omega arith) in
      (take 16 fbs, normal_key_ok fbs (omega (arith, len)), length-take 16 fbs (omega (arith, len)))

  -- `NewCrypto` fails for no factor and does not panic, when the packages behave as documented; the
  -- root key has 16 bytes.
  pub new_crypto_ok :
      (factor : List ℕ)
      → (c : Crypto Block) × (new_crypto p factor ≡ ok c) × (length c.root_key ≡ 16)
  unfolding new_crypto
  new_crypto_ok factor =
      let (key, e, k) = cal_key_ok factor in
      let (b, e') = laws.new_cipher_ok key k in
      (record { root_block = b; root_key = key }, rw (e, e') refl, k)
