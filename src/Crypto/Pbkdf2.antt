-- ===== src/Crypto/Pbkdf2.antt =====
-- gcrypto/pbkdf2.go: keys derived from passwords. A read of `rand.Reader` is an argument: the bytes
-- read, or none for its error. `prf` is the HMAC under the password, `hash_len` its size.
pub mod Reference
pub mod Compare
mod Tests
use Prim.Native.Nat.{bit_xor}
use gokits.Prelude.{
  ℕ, zero, suc, ◌+◌, ◌-◌, ◌/◌, Bool, false, Option, none, some, List, [], ◌∷◌, ◌++◌, length, take,
  set, get_elem?, ◌==◌,
}
use gokits.Crypto.Primitives.{Primitives}
use gokits.Crypto.Aes.{count_bytes}

abbrev pub Bytes : Type 0
Bytes = List ℕ

-- A read at an index that is within the slice.
abbrev pub byte_of : Option ℕ → ℕ
byte_of none = 0
byte_of (some b) = b

-- `T[x] ^= U[x]` for every x; T is the part of `dk` from the offset on.
pub xor_at : ℕ → Bytes → Bytes → Bytes
xor_at offset [] dk = dk
xor_at offset (u ∷ us) dk =
    xor_at (offset + 1) us (set dk offset (bit_xor (byte_of (get_elem? dk offset)) u))

-- `numBlocks`
pub num_blocks : ℕ → ℕ → ℕ
num_blocks key_len hash_len = (key_len + hash_len - 1) / hash_len

module _ (prf : Bytes → Bytes) where
  -- The inner loop of `pbkdf2key`, so many rounds.
  pub iterate : ℕ → ℕ → Bytes → Bytes → Bytes
  iterate offset zero u dk = dk
  iterate offset (suc n) u dk = let u' = prf u in iterate offset n u' (xor_at offset u' dk)

  -- The body of the outer loop.
  pub add_block : ℕ → Bytes → ℕ → ℕ → Bytes → Bytes
  add_block hash_len salt iter block dk =
      let t = prf (salt ++ count_bytes block) in
      let dk' = dk ++ t in iterate (length dk' - hash_len) (iter - 1) t dk'

  -- The outer loop, from a block on, so many blocks.
  pub add_blocks : ℕ → Bytes → ℕ → ℕ → ℕ → Bytes → Bytes
  add_blocks hash_len salt iter zero block dk = dk
  add_blocks hash_len salt iter (suc n) block dk =
      add_blocks hash_len salt iter n (block + 1) (add_block hash_len salt iter block dk)

  pub pbkdf2key : ℕ → Bytes → ℕ → ℕ → Bytes
  pbkdf2key hash_len salt iter key_len =
      take key_len (add_blocks hash_len salt iter (num_blocks key_len hash_len) 1 [])

-- `getSaltBytes`
pub get_salt_bytes : Option Bytes → Bytes
get_salt_bytes none = []
get_salt_bytes (some salt) = salt

module _ {Block : Type 0} (p : Primitives Block) where
  abbrev pub derive : Bytes → Bytes → ℕ → ℕ → Bytes
  derive password salt iter key_len = pbkdf2key (p.hmac_sha256 password) 32 salt iter key_len

  -- `GenPbkdf2Passwd`: the key and the salt, in base64.
  pub gen_pbkdf2_passwd : Option Bytes → Bytes → ℕ → ℕ → Bytes × Bytes
  gen_pbkdf2_passwd random password iter key_len =
      let salt = get_salt_bytes random in
      let encrypted = derive password salt iter key_len in
      (p.base64_encode encrypted, p.base64_encode salt)

  -- The last lines of `CmpPbkdf2Passwd`.
  abbrev compare_with : Bytes → ℕ → ℕ → Bytes → Option Bytes → Bool
  compare_with password iter key_len pwd none = false
  compare_with password iter key_len pwd (some salt) =
      p.constant_time_compare pwd (derive password salt iter key_len) == 1

  -- `CmpPbkdf2Passwd`
  pub cmp_pbkdf2_passwd : Bytes → Bytes → Bytes → ℕ → ℕ → Bool
  cmp_pbkdf2_passwd password salt encrypted iter key_len = elim (p.base64_decode encrypted) [
    | none ↦ false
    | some pwd ↦ compare_with password iter key_len pwd (p.base64_decode salt)
  ]
