-- ===== src/Rand.antt =====
-- grand/rand.go: random texts. What is read of crypto/rand is an argument, the bytes or none for its
-- error, and the numbers that math/rand draws are a function of how many were drawn. Where a result is
-- an Option, none is a panic.
pub mod Uuid
pub mod Draws
mod Tests
use Prim.Native.Nat.{bit_and, bit_or}
use gokits.Prelude.{
  ℕ, zero, suc, ◌+◌, ◌-◌, ◌*◌, ◌/◌, ◌%◌, ◌≡◌, Option, none, some, List, [], ◌∷◌, ◌++◌, length, take,
  drop, get_elem?, set, ◌==◌, if◌then◌else◌,
}

abbrev pub Bytes : Type 0
Bytes = List ℕ

-- What grand takes of encoding/hex, which `%x` of fmt does too: the digits, and the text of some bytes.
pub record Hex : Type 0 where
  pub digit : ℕ → ℕ
  pub encode : Bytes → Bytes

-- Its documented behaviour: two digits for each byte, the high one first.
pub record IsHex (h : Hex) : Type 0 where
  pub encode_nil : h.encode [] ≡ []
  pub encode_cons :
      (b : ℕ) (bs : Bytes) → h.encode (b ∷ bs) ≡ h.digit (b / 16) ∷ (h.digit (b % 16) ∷ h.encode bs)

abbrev pub dash : ℕ
dash = 45

-- `u[low:high]`
abbrev pub slice : ℕ → ℕ → Bytes → Bytes
slice low high u = take (high - low) (drop low u)

-- A read at an index that is within the slice.
abbrev pub byte_of : Option ℕ → ℕ
byte_of none = 0
byte_of (some b) = b

-- The version and the variant of `NewUUID`, as its constants have them.
abbrev pub marked : Bytes → Bytes
marked u =
    let u1 = set u 6 (bit_or (4 * 16) (bit_and (byte_of (get_elem? u 6)) 15)) in
    set u1 8 (bit_or (2 * 16) (bit_and (byte_of (get_elem? u1 8)) 15))

module _ (h : Hex) where
  -- `NewRand`, which reads half as many bytes.
  pub new_rand : Option Bytes → Option Bytes
  new_rand none = none
  new_rand (some u) = some (h.encode u)

  -- `NewRandWithPrefix`
  pub new_rand_with_prefix : Bytes → Option Bytes → Option Bytes
  new_rand_with_prefix prefix u = elim (new_rand u) [
    | none ↦ none
    | some text ↦ some (h.encode prefix ++ text)
  ]

  -- `NewUUID`
  pub new_uuid : Option Bytes → Option Bytes
  new_uuid none = none
  new_uuid (some u) =
      let v = marked u in
      some (
        h.encode (slice 0 4 v)
        ++ (dash
            ∷ (h.encode (slice 4 6 v)
                ++ (dash
                    ∷ (h.encode (slice 6 8 v)
                        ++ (dash ∷ (h.encode (slice 8 10 v) ++ (dash ∷ h.encode (drop 10 v)))))))))

-- `StringRand`; the i-th call of `rand.Intn` draws `draw i` modulo its argument, and panics at 0.
pub string_rand : (ℕ → ℕ) → Bytes → ℕ → ℕ → Option Bytes
string_rand draw range i zero = some []
string_rand draw range i (suc n) =
    let rest = string_rand draw range (i + 1) n in
    if length range == 0 then none else elim rest [
      | none ↦ none
      | some b ↦ some (byte_of (get_elem? range (draw i % length range)) ∷ b)
    ]

-- `NormRand` for an n that is not negative: its loop over the calls of `NormFloat64`, of which `draw`
-- gives the sample as an integer without its sign. A remainder in Go has the sign of the sample, and
-- the size that the remainder has without it.
pub norm_loop : (ℕ → ℕ) → ℕ → ℕ → ℕ → ℕ → ℕ
norm_loop draw n i zero sample = sample
norm_loop draw n i (suc k) sample = norm_loop draw n (i + 1) k (draw i % n)

pub norm_rand : (ℕ → ℕ) → ℕ → ℕ
norm_rand draw n = norm_loop draw n 0 n 0
