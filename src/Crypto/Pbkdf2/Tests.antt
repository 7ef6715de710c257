-- ===== src/Crypto/Pbkdf2/Tests.antt =====
-- gcrypto/pbkdf2.go: tests and examples.
use gokits.Prelude.{
  ◌≡◌, ◌↔◌, refl, true, Option, some, [], ◌∷◌, length, length-replicate, replicate, take, arith,
}
use gokits.Crypto.Toy.{toy, toy-IsLawful}
use gokits.Crypto.Pbkdf2.{
  Bytes, xor_at, iterate, add_block, add_blocks, num_blocks, pbkdf2key, derive, get_salt_bytes,
  gen_pbkdf2_passwd, cmp_pbkdf2_passwd,
}
use gokits.Crypto.Pbkdf2.Reference.{blocks, pbkdf2key_lem}
use gokits.Crypto.Pbkdf2.Compare.{cmp-gen}

-- Two bytes that tell the length of the text.
abbrev short_prf : Bytes → Bytes
short_prf text = replicate 2 (length text)

pbkdf2key_lem_example :
    pbkdf2key short_prf 2 (7 ∷ 8 ∷ []) 3 5 ≡ take 5 (blocks short_prf (7 ∷ 8 ∷ []) 3 4)
pbkdf2key_lem_example =
    pbkdf2key_lem short_prf 2 (λ text. length-replicate 2 (length text)) (7 ∷ 8 ∷ []) 3 5 4
      (omega arith) (omega arith)

-- 6 xor 2 xor 2.
pbkdf2key_test : pbkdf2key short_prf 2 (7 ∷ 8 ∷ []) 3 3 ≡ 6 ∷ 6 ∷ 6 ∷ []
unfolding pbkdf2key num_blocks add_blocks add_block iterate xor_at
pbkdf2key_test = refl

abbrev some_salt : Option Bytes
some_salt = some (1 ∷ 2 ∷ 3 ∷ [])

cmp-gen_example :
    let (encrypted, text) = gen_pbkdf2_passwd toy some_salt (65 ∷ 66 ∷ []) 2 4 in
    (cmp_pbkdf2_passwd toy (65 ∷ 67 ∷ []) text encrypted 2 4 ≡ true) ↔ (
      derive toy (65 ∷ 66 ∷ []) (get_salt_bytes some_salt) 2 4
      ≡ derive toy (65 ∷ 67 ∷ []) (get_salt_bytes some_salt) 2 4)
cmp-gen_example = cmp-gen toy-IsLawful some_salt (65 ∷ 66 ∷ []) (65 ∷ 67 ∷ []) 2 4
