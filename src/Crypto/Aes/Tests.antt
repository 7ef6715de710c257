-- ===== src/Crypto/Aes/Tests.antt =====
-- Runs of gcrypto/aes128.go with a cipher that adds 1 to every byte.
use gokits.Prelude.{
  ◌≡◌, ◌⊎◌, refl, ℕ, ◌%◌, ◌≤◌, ◌<◌, none, some, List, [], ◌∷◌, ◌++◌, length, replicate, take, drop,
  get_elem?, ◌-◌, arith,
}
use gokits.Crypto.Toy.{toy, toy-IsLawful}
use gokits.Crypto.Aes.{
  Crypto, ok, err, panic, invalid_key, aes_text_size, aes_padding, ◌>>=◌, new_crypto, encrypt_block,
  decrypt_block, encrypt, decrypt, encrypt_str, decrypt_str, encrypt_with_key, decrypt_with_key,
  encrypt_str_with_key, decrypt_str_with_key, pad,
}
use gokits.Crypto.Aes.RoundTrip.{
  decrypt_block-encrypt_block, decrypt_str-encrypt_str, decrypt_answers,
}
use gokits.Crypto.Aes.WorkKey.{
  decrypt_with_key-encrypt_with_key, decrypt_str_with_key-encrypt_str_with_key, short_key_panics,
  new_crypto_ok,
}

abbrev key : List ℕ
key = replicate 20 7

abbrev vector : List ℕ
vector = replicate 16 5

abbrev root : Crypto (List ℕ)
root = record { root_block = replicate 16 9; root_key = replicate 16 9 }

sealed_abc :
    encrypt toy root (some vector) (97 ∷ 98 ∷ 99 ∷ [])
    ≡ ok (vector ++ 98 ∷ 99 ∷ 100 ∷ replicate 13 14)
unfolding encrypt encrypt_block pad
sealed_abc = refl

decrypt_block-encrypt_block_example :
    (encrypt_block toy key (some vector) (97 ∷ 98 ∷ []) >>= decrypt_block toy key)
    ≡ ok (97 ∷ 98 ∷ [])
decrypt_block-encrypt_block_example =
    decrypt_block-encrypt_block toy-IsLawful key vector (97 ∷ 98 ∷ []) refl

decrypt_str-encrypt_str_example :
    (encrypt_str toy root (some vector) (97 ∷ 98 ∷ []) >>= decrypt_str toy root) ≡ ok (97 ∷ 98 ∷ [])
decrypt_str-encrypt_str_example =
    decrypt_str-encrypt_str toy-IsLawful root vector (97 ∷ 98 ∷ []) refl

-- A vector and a block whose decryption ends with three bytes of padding.
abbrev sealed_block : List ℕ
sealed_block = vector ++ (replicate 13 98 ++ replicate 3 4)

decrypt_answers_example :
    let plain = toy.cbc_decrypt root.root_block (take 16 sealed_block) (drop 16 sealed_block) in
    (((length sealed_block < 32) ⊎ (0 < length sealed_block % 16))
      × (decrypt toy root sealed_block ≡ err aes_text_size))
    ⊎ ((32 ≤ length sealed_block)
        × (length sealed_block % 16 ≡ 0)
        × ((n : ℕ) × (get_elem? plain (length plain - 1) ≡ some n)
            × (((n ≤ 16)
                  × (decrypt toy root sealed_block
                      ≡ ok (take (length sealed_block - 16 - n) plain)))
                ⊎ ((16 < n) × (decrypt toy root sealed_block ≡ err aes_padding)))))
decrypt_answers_example = decrypt_answers toy-IsLawful root sealed_block

decrypt_with_key-encrypt_with_key_example :
    (16 ≤ length key
      → (encrypt_with_key toy root (some vector) (some vector) key (97 ∷ []) >>= λ (k, t).
          decrypt_with_key toy root k t)
        ≡ ok (97 ∷ []))
    × (length key < 16 → encrypt_with_key toy root none none key (97 ∷ []) ≡ err invalid_key)
decrypt_with_key-encrypt_with_key_example =
    decrypt_with_key-encrypt_with_key toy-IsLawful root vector vector key (97 ∷ []) none none refl
      refl

decrypt_str_with_key-encrypt_str_with_key_example :
    (encrypt_str_with_key toy root (some vector) (some vector) key (97 ∷ []) >>= λ (k, t).
    decrypt_str_with_key toy root k t)
    ≡ ok (97 ∷ [])
decrypt_str_with_key-encrypt_str_with_key_example =
    decrypt_str_with_key-encrypt_str_with_key toy-IsLawful root vector vector key (97 ∷ []) refl
      refl (omega arith)

short_key_panics_example :
    (encrypt toy root (some vector) (1 ∷ 2 ∷ []) >>= λ k. decrypt_with_key toy root k key) ≡ panic
short_key_panics_example =
    short_key_panics toy-IsLawful root vector (1 ∷ 2 ∷ []) key refl (omega arith)

new_crypto_ok_example :
    (c : Crypto (List ℕ)) × (new_crypto toy (97 ∷ []) ≡ ok c) × (length c.root_key ≡ 16)
new_crypto_ok_example = new_crypto_ok toy-IsLawful (97 ∷ [])
