-- ===== src/Rand/Uuid.antt =====
-- grand/rand.go: the texts of NewUUID and NewRand.
use Prim.Native.Nat.{bit_and, bit_or}
use gokits.Prelude.{
  ℕ, zero, suc, Bool, true, ◌&&◌, ◌==◌, ==_iff, ◌*◌, ◌/◌, ◌≡◌, ◌<◌, refl, some, List, [], ◌∷◌,
  length, get_elem?, arith,
}
use gokits.Rand.{Bytes, Hex, IsHex, dash, new_rand, new_uuid}

-- A test on every byte, by evaluation.
every_byte : ℕ → (ℕ → Bool) → Bool
every_byte zero p = true
every_byte (suc n) p = p n && every_byte n p

every_byte_lem : (n : ℕ) (p : ℕ → Bool) (b : ℕ) → every_byte n p ≡ true → b < n → p b ≡ true
unfolding every_byte
every_byte_lem zero p b t h = absurd (omega (arith, h))
every_byte_lem (suc n) p b t h = ground (arith, every_byte_lem n p b)

version_table : every_byte 256 (λ b. bit_or (4 * 16) (bit_and b 15) / 16 == 4) ≡ true
unfolding every_byte
version_table = refl

variant_table : every_byte 256 (λ b. bit_or (2 * 16) (bit_and b 15) / 16 == 2) ≡ true
unfolding every_byte
variant_table = refl

version_digit : (b : ℕ) → b < 256 → bit_or (4 * 16) (bit_and b 15) / 16 ≡ 4
version_digit b h = (==_iff _ 4).0 (every_byte_lem 256 _ b version_table h)

variant_digit : (b : ℕ) → b < 256 → bit_or (2 * 16) (bit_and b 15) / 16 ≡ 2
variant_digit b h = (==_iff _ 2).0 (every_byte_lem 256 _ b variant_table h)

abbrev pub All {ℓ κ} : {A : Type ℓ} → (A → Type κ) → List A → Type κ
All P [] = Unit
All P (x ∷ xs) = P x × All P xs

module _ {h : Hex} (laws : IsHex h) where
  length-encode : (u : Bytes) → length (h.encode u) ≡ 2 * length u
  length-encode [] = rw laws.encode_nil (omega arith)
  length-encode (b ∷ u) = rw (laws.encode_cons b u) (omega (arith, length-encode u))

  length-new_rand : (u text : Bytes) → new_rand h (some u) ≡ some text → length text ≡ 2 * length u
  unfolding new_rand
  length-new_rand u text e = ground (arith, e, length-encode u)

  -- `NewUUID` on 16 random bytes gives 36 characters with dashes in the places of a UUID, the digit 4
  -- for the version, and 2 as the digit that has the variant, where RFC 4122 has 8, 9, a or b. The hex
  -- encoding behaves as documented.
  pub new_uuid_lem :
      (u : Bytes)
      → length u ≡ 16
      → All (λ b. b < 256) u
      → (text : Bytes) × (new_uuid h (some u) ≡ some text)
        × (length text ≡ 36)
        × (get_elem? text 8 ≡ some dash)
        × (get_elem? text 13 ≡ some dash)
        × (get_elem? text 18 ≡ some dash)
        × (get_elem? text 23 ≡ some dash)
        × (get_elem? text 14 ≡ some (h.digit 4))
        × (get_elem? text 19 ≡ some (h.digit 2))
  unfolding new_uuid
  new_uuid_lem (a ∷ b ∷ c ∷ d ∷ e ∷ f ∷ g ∷ i ∷ j ∷ k ∷ l ∷ m ∷ n ∷ o ∷ p ∷ q ∷ []) sized small =
      let version = version_digit g small.1.1.1.1.1.1.0 in
      let variant = variant_digit j small.1.1.1.1.1.1.1.1.0 in
      (
        _,
        refl,
        simp (laws.encode_cons, laws.encode_nil),
        simp (laws.encode_cons, laws.encode_nil),
        simp (laws.encode_cons, laws.encode_nil),
        simp (laws.encode_cons, laws.encode_nil),
        simp (laws.encode_cons, laws.encode_nil),
        simp (laws.encode_cons, laws.encode_nil, version),
        simp (laws.encode_cons, laws.encode_nil, variant),
      )
  new_uuid_lem u sized small = absurd (omega (arith, sized))
