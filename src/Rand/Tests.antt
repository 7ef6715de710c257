-- ===== src/Rand/Tests.antt =====
-- grand/rand.go: tests and examples.
use gokits.Prelude.{
  ℕ, ◌+◌, ◌*◌, ◌/◌, ◌%◌, ◌≡◌, ◌<◌, refl, ltb, some, [], ◌∷◌, length, get_elem?, arith,
  if◌then◌else◌,
}
use gokits.Rand.{Bytes, Hex, IsHex, dash, new_uuid, string_rand, norm_rand}
use gokits.Rand.Uuid.{All, new_uuid_lem}
use gokits.Rand.Draws.{Occurs, string_rand_lem, norm_rand_lem}

abbrev lower_hex : ℕ → ℕ
lower_hex n = if ltb n 10 then 48 + n else 87 + n

abbrev hex_text : Bytes → Bytes
hex_text [] = []
hex_text (b ∷ bs) = lower_hex (b / 16) ∷ (lower_hex (b % 16) ∷ hex_text bs)

abbrev lower : Hex
lower = record { digit = lower_hex; encode = hex_text }

lower-IsHex : IsHex lower
lower-IsHex = record { encode_nil = refl; encode_cons = λ b bs. refl }

abbrev sixteen : Bytes
sixteen = 1 ∷ 2 ∷ 3 ∷ 4 ∷ 5 ∷ 6 ∷ 255 ∷ 8 ∷ 254 ∷ 10 ∷ 11 ∷ 12 ∷ 13 ∷ 14 ∷ 15 ∷ 16 ∷ []

new_uuid_lem_example :
    (text : Bytes) × (new_uuid lower (some sixteen) ≡ some text)
    × (length text ≡ 36)
    × (get_elem? text 8 ≡ some dash)
    × (get_elem? text 13 ≡ some dash)
    × (get_elem? text 18 ≡ some dash)
    × (get_elem? text 23 ≡ some dash)
    × (get_elem? text 14 ≡ some (lower_hex 4))
    × (get_elem? text 19 ≡ some (lower_hex 2))
new_uuid_lem_example = new_uuid_lem lower-IsHex sixteen refl (omega arith)

string_rand_lem_example :
    (text : Bytes) × (string_rand (λ i. 7 * i) (97 ∷ 98 ∷ 99 ∷ []) 0 5 ≡ some text)
    × (length text ≡ 5)
    × All (λ b. Occurs b (97 ∷ 98 ∷ 99 ∷ [])) text
string_rand_lem_example = string_rand_lem (λ i. 7 * i) (97 ∷ 98 ∷ 99 ∷ []) 0 5 (omega arith)

norm_rand_lem_example : (norm_rand (λ i. 100 + i) 10 < 10) × (norm_rand (λ i. 100 + i) 10 ≡ 9)
norm_rand_lem_example = norm_rand_lem (λ i. 100 + i) 9
