-- ===== src/Crypto/Aes/RoundTrip.antt =====
-- gcrypto/aes128.go: what is encrypted is decrypted to the same text.
use native.Mathlib.Decide.{ℕ_discrete}
use gokits.Prelude.{
  ◌≡◌, zero, suc, Bool-cases, ltb_false→le, ◌⊎◌, inl, inr, refl, ap, ap₂, sym, ◌∙◌, subst, ℕ, ◌+◌,
  ◌-◌, ◌%◌, ◌≤◌, ◌<◌, some, List, [], ◌∷◌, ◌++◌, length, length-append, take, drop, get_elem?, ltb,
  ltb→lt, arith,
}
use gokits.Crypto.Primitives.{Primitives, IsLawful}
use gokits.Crypto.Aes.{
  Crypto, ok, err, aes_text_size, aes_padding, pad, unpad, ◌>>=◌, encrypt_block, decrypt_block,
  encrypt, decrypt, encrypt_str, decrypt_str,
}
use gokits.Crypto.Aes.Padding.{
  length-pad, unpad-pad, unpad_last, unpad_refused, get_elem?_inside, take-append, drop-append,
}

abbrev pad_len : List ℕ → ℕ
pad_len src = 16 - length src % 16

abbrev padded : List ℕ → List ℕ
padded src = pad (pad_len src) (pad_len src) src

pad_len_bounds : (n : ℕ) → (0 < 16 - n % 16) × (16 - n % 16 ≤ 16) × ((n + (16 - n % 16)) % 16 ≡ 0)
pad_len_bounds n = (omega arith, omega arith, omega arith)

-- What `encrypt` returns.
abbrev pub sealed : {Block : Type 0} → Primitives Block → Block → List ℕ → List ℕ → List ℕ
sealed p b iv src = iv ++ p.cbc_encrypt b iv (padded src)

length-drop {ℓ} : {A : Type ℓ} (n : ℕ) (xs : List A) → length (drop n xs) ≡ length xs - n
length-drop zero xs = omega arith
length-drop (suc n) [] = omega arith
length-drop (suc n) (x ∷ xs) = omega (arith, length-drop n xs)

pub length-take {ℓ} : {A : Type ℓ} (n : ℕ) (xs : List A) → n ≤ length xs → length (take n xs) ≡ n
length-take zero xs h = refl
length-take (suc n) [] h = absurd (omega arith)
length-take (suc n) (x ∷ xs) h = omega (arith, length-take n xs (omega arith))

module _ {Block : Type 0} {p : Primitives Block} (laws : IsLawful p) where
  length-padded : (src : List ℕ) → length (padded src) % 16 ≡ 0
  length-padded src =
      ap (λ k. k % 16) (length-pad (pad_len src) (pad_len src) src)
      ∙ (pad_len_bounds (length src)).2

  decrypt_whole :
      (b : Block) (src : List ℕ)
      → 32 ≤ length src
      → length src % 16 ≡ 0
      → decrypt_block p b src ≡ unpad (p.cbc_decrypt b (take 16 src) (drop 16 src))
  unfolding decrypt_block
  decrypt_whole b src h h' = ground arith

  -- `decrypt` of a vector and whole blocks removes the padding from their decryption.
  decrypt_blocks :
      (b : Block) (iv text : List ℕ)
      → length iv ≡ 16
      → length text % 16 ≡ 0
      → 0 < length text
      → decrypt_block p b (iv ++ text) ≡ unpad (p.cbc_decrypt b iv text)
  decrypt_blocks b iv text h h' h'' =
      decrypt_whole b (iv ++ text) (omega (arith, length-append iv text))
        (omega (arith, length-append iv text))
      ∙ ap₂ (λ x y. unpad (p.cbc_decrypt b x y))
          (ap (λ k. take k (iv ++ text)) (sym h) ∙ take-append iv text)
          (ap (λ k. drop k (iv ++ text)) (sym h) ∙ drop-append iv text)

  pub decrypt_block-sealed :
      (b : Block) (iv src : List ℕ)
      → length iv ≡ 16
      → decrypt_block p b (sealed p b iv src) ≡ ok src
  decrypt_block-sealed b iv src h =
      let text = padded src in
      let whole = length-padded src in
      let len = laws.length_cbc_encrypt b iv text h whole in
      let enough = pad_len_bounds (length src) in
      decrypt_blocks b iv (p.cbc_encrypt b iv text) h (ap (λ k. k % 16) len ∙ whole) (
        subst (λ k. 0 < k) (sym (len ∙ length-pad (pad_len src) (pad_len src) src))
          (omega (arith, enough.0)))
      ∙ ap (λ l. unpad l) (laws.cbc_undone b iv text h whole)
      ∙ unpad-pad (pad_len src) src enough.0 enough.1

  -- `decrypt` gives back every text that `encrypt` was given, under the same block cipher, when 16
  -- random bytes are read and the cipher and its mode behave as documented.
  pub decrypt_block-encrypt_block :
      (b : Block) (iv src : List ℕ)
      → length iv ≡ 16
      → (encrypt_block p b (some iv) src >>= decrypt_block p b) ≡ ok src
  unfolding encrypt_block
  decrypt_block-encrypt_block b iv src h = decrypt_block-sealed b iv src h

  pub encrypt_sealed :
      (b : Block) (iv src : List ℕ) → encrypt_block p b (some iv) src ≡ ok (sealed p b iv src)
  unfolding encrypt_block
  encrypt_sealed b iv src = refl

  -- `DecryptStr` gives back every text that `EncryptStr` was given, under the same key, when 16
  -- random bytes are read and the packages behave as documented.
  pub decrypt_str-encrypt_str :
      (c : Crypto Block) (iv src : List ℕ)
      → length iv ≡ 16
      → (encrypt_str p c (some iv) src >>= decrypt_str p c) ≡ ok src
  unfolding encrypt_str decrypt_str encrypt decrypt encrypt_block
  decrypt_str-encrypt_str c iv src h =
      rw (laws.base64_undone (sealed p c.root_block iv src))
        (decrypt_block-sealed c.root_block iv src h)

  length-decrypted :
      (b : Block) (src : List ℕ)
      → 32 ≤ length src
      → length src % 16 ≡ 0
      → length (p.cbc_decrypt b (take 16 src) (drop 16 src)) ≡ length src - 16
  length-decrypted b src h h' =
      let n = length-drop 16 src in
      laws.length_cbc_decrypt b (take 16 src) (drop 16 src) (length-take 16 src (omega arith))
        (omega arith)
      ∙ n

  is_sized :
      (src : List ℕ)
      → ((length src < 32) ⊎ (0 < length src % 16)) ⊎ ((32 ≤ length src) × (length src % 16 ≡ 0))
  is_sized src = elim (Bool-cases (ltb (length src) 32)) [
    | inl t ↦ inl (inl (ltb→lt (length src) 32 t))
    | inr f ↦ elim (ℕ_discrete (length src % 16) 0) [
      | yes e ↦ inr (ltb_false→le (length src) 32 f, e)
      | no n ↦ inl (inr (omega arith))
    ]
  ]

  short_refused :
      (b : Block) (src : List ℕ)
      → (length src < 32) ⊎ (0 < length src % 16)
      → decrypt_block p b src ≡ err aes_text_size
  unfolding decrypt_block
  short_refused b src (inl h) = ground (arith, h)
  short_refused b src (inr h) = ground (arith, h)

  -- The result of `decrypt` for every input. Shorter than two blocks, or not of whole blocks, it is
  -- refused. Otherwise the decryption of what follows the vector has a last byte n: where n is at
  -- most 16 the result is the decryption without its last n bytes, and where it is more the padding
  -- is refused. No index is out of range.
  pub decrypt_answers :
      (c : Crypto Block) (src : List ℕ)
      → let plain = p.cbc_decrypt c.root_block (take 16 src) (drop 16 src) in
        (((length src < 32) ⊎ (0 < length src % 16)) × (decrypt p c src ≡ err aes_text_size))
        ⊎ ((32 ≤ length src)
            × (length src % 16 ≡ 0)
            × ((n : ℕ) × (get_elem? plain (length plain - 1) ≡ some n)
                × (((n ≤ 16) × (decrypt p c src ≡ ok (take (length src - 16 - n) plain)))
                    ⊎ ((16 < n) × (decrypt p c src ≡ err aes_padding)))))
  unfolding decrypt
  decrypt_answers c src = elim (is_sized src) [
    | inl short ↦ inl (short, short_refused c.root_block src short)
    | inr (h, h') ↦
        let b = c.root_block in
        let plain = p.cbc_decrypt b (take 16 src) (drop 16 src) in
        let len = length-decrypted b src h h' in
        let (n, e) = get_elem?_inside plain (length plain - 1) (omega (arith, len)) in
        elim (Bool-cases (ltb 16 n)) [
          | inl t ↦
              let many = ltb→lt 16 n t in
              inr
                (h, h', (n, e, inr (many, decrypt_whole b src h h' ∙ unpad_refused n plain e many)))
          | inr f ↦
              let few = ltb_false→le 16 n f in
              inr (
                h,
                h',
                (
                  n,
                  e,
                  inl (
                    few,
                    decrypt_whole b src h h'
                        ∙ unpad_last n plain e few (omega (arith, len))
                        ∙ ap (λ k. ok (take (k - n) plain)) len,
                  ),
                ),
              )
        ]
  ]
