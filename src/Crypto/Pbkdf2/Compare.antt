-- ===== src/Crypto/Pbkdf2/Compare.antt =====
-- gcrypto/pbkdf2.go: passwords that are generated and compared.
use gokits.Prelude.{ℕ, ◌≡◌, ◌↔◌, refl, true, ◌==◌, ==_iff, Option}
use gokits.Crypto.Primitives.{Primitives, IsLawful}
use gokits.Crypto.Pbkdf2.{Bytes, derive, get_salt_bytes, gen_pbkdf2_passwd, cmp_pbkdf2_passwd}

module _ {Block : Type 0} {p : Primitives Block} (laws : IsLawful p) where
  cmp_encoded :
      (guess salt key : Bytes) (iter key_len : ℕ)
      → cmp_pbkdf2_passwd p guess (p.base64_encode salt) (p.base64_encode key) iter key_len
        ≡ (p.constant_time_compare key (derive p guess salt iter key_len) == 1)
  unfolding cmp_pbkdf2_passwd
  cmp_encoded guess salt key iter key_len =
      rw (laws.base64_undone key, laws.base64_undone salt, cmp_pbkdf2_passwd) refl

  -- `CmpPbkdf2Passwd` accepts what `GenPbkdf2Passwd` made from a password, with the same numbers of
  -- iterations and octets, exactly for the passwords with the same key: so for this one, whatever was
  -- read for the salt. The packages behave as documented.
  pub cmp-gen :
      (random : Option Bytes) (password guess : Bytes) (iter key_len : ℕ)
      → let (encrypted, salt) = gen_pbkdf2_passwd p random password iter key_len in
        (cmp_pbkdf2_passwd p guess salt encrypted iter key_len ≡ true) ↔ (
          derive p password (get_salt_bytes random) iter key_len
          ≡ derive p guess (get_salt_bytes random) iter key_len)
  unfolding gen_pbkdf2_passwd
  cmp-gen random password guess iter key_len =
      let salt = get_salt_bytes random in
      let key = derive p password salt iter key_len in
      let other = derive p guess salt iter key_len in
      let (to, from) = laws.compare_iff key other in
      let (one, same) = ==_iff (p.constant_time_compare key other) 1 in
      rw (cmp_encoded guess salt key iter key_len) (λ h. to (one h), λ h. same (from h))
