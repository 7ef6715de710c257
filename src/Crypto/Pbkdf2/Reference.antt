-- ===== src/Crypto/Pbkdf2/Reference.antt =====
-- gcrypto/pbkdf2.go against RFC 2898, section 5.2.
use Prim.Native.Nat.{bit_xor}
use mathlib.Core.List.{append_assoc}
use native.Mathlib.Nat.{div-add-mod', mod-lt}
use gokits.Prelude.{
  ℕ, zero, suc, ◌+◌, ◌-◌, ◌*◌, ◌≤◌, ◌<◌, ◌≡◌, refl, sym, ap, ◌∙◌, [], ◌∷◌, ◌++◌, length,
  length-append, take, set, get_elem?, arith,
}
use gokits.Crypto.Aes.{count_bytes}
use gokits.Crypto.Pbkdf2.{
  Bytes, byte_of, xor_at, iterate, add_block, add_blocks, num_blocks, pbkdf2key,
}

-- The exclusive or of two octet strings of one length.
unfoldable pub xor_bytes : Bytes → Bytes → Bytes
xor_bytes [] ys = []
xor_bytes (x ∷ xs) [] = x ∷ xs
xor_bytes (x ∷ xs) (y ∷ ys) = bit_xor x y ∷ xor_bytes xs ys

length-xor_bytes : (xs ys : Bytes) → length (xor_bytes xs ys) ≡ length xs
unfolding xor_bytes
length-xor_bytes [] ys = refl
length-xor_bytes (x ∷ xs) [] = refl
length-xor_bytes (x ∷ xs) (y ∷ ys) = ap suc (length-xor_bytes xs ys)

get_elem?-after :
    (pre : Bytes) (t : ℕ) (ts : Bytes) → byte_of (get_elem? (pre ++ (t ∷ ts)) (length pre)) ≡ t
get_elem?-after [] t ts = refl
get_elem?-after (p ∷ pre) t ts = get_elem?-after pre t ts

set-after :
    (pre : Bytes) (t v : ℕ) (ts : Bytes)
    → set (pre ++ (t ∷ ts)) (length pre) v ≡ (pre ++ (v ∷ [])) ++ ts
set-after [] t v ts = refl
set-after (p ∷ pre) t v ts = ap (λ l. p ∷ l) (set-after pre t v ts)

xor_at_lem :
    (pre ts us : Bytes)
    → length us ≤ length ts
    → xor_at (length pre) us (pre ++ ts) ≡ pre ++ xor_bytes ts us
unfolding xor_at xor_bytes
xor_at_lem pre [] [] h = refl
xor_at_lem pre (t ∷ ts) [] h = refl
xor_at_lem pre [] (u ∷ us) h = absurd (omega (arith, h))
xor_at_lem pre (t ∷ ts) (u ∷ us) h =
    let v = bit_xor t u in
    let pre' = pre ++ (v ∷ []) in
    let more : length pre' ≡ length pre + 1 = omega (arith, length-append pre (v ∷ [])) in
    rw (get_elem?-after pre t ts, set-after pre t v ts, ← more)
      (xor_at_lem pre' ts us (omega (arith, h)) ∙ append_assoc pre (v ∷ []) (xor_bytes ts us))

at_index {ℓ} : {A : Type ℓ} (f : ℕ → A) (m n : ℕ) → m ≡ n → f m ≡ f n
at_index f m n e = ap f e

enough : (k h : ℕ) → 0 < h → k ≤ num_blocks k h * h
unfolding num_blocks
enough k h pos = omega (arith, div-add-mod' (k + h - 1) h, mod-lt (k + h - 1) pos)

scaled_le : (l n h : ℕ) → l * h ≤ (l + n) * h
scaled_le l n h = grind arith

take-append : (k : ℕ) (xs ys : Bytes) → k ≤ length xs → take k (xs ++ ys) ≡ take k xs
take-append zero xs ys h = refl
take-append (suc k) [] ys h = absurd (omega (arith, h))
take-append (suc k) (x ∷ xs) ys h = ap (λ l. x ∷ l) (take-append k xs ys (omega (arith, h)))

module _ (prf : Bytes → Bytes) where
  -- U_1, U_2, ... of RFC 2898, counted from 0.
  unfoldable pub u_of : Bytes → ℕ → Bytes
  u_of text zero = prf text
  u_of text (suc n) = prf (u_of text n)

  -- U_1 xor ... xor U_(n+1).
  unfoldable pub xor_all : Bytes → ℕ → Bytes
  xor_all text zero = u_of text zero
  xor_all text (suc n) = xor_bytes (xor_all text n) (u_of text (suc n))

  -- T_1 || ... || T_l, where each T is the sum of iter strings.
  unfoldable pub blocks : Bytes → ℕ → ℕ → Bytes
  blocks salt iter zero = []
  blocks salt iter (suc l) = blocks salt iter l ++ xor_all (salt ++ count_bytes (l + 1)) (iter - 1)

  module _ (hash_len : ℕ) (sized : (text : Bytes) → length (prf text) ≡ hash_len) where
    length-u_of : (text : Bytes) (n : ℕ) → length (u_of text n) ≡ hash_len
    unfolding u_of
    length-u_of text zero = sized text
    length-u_of text (suc n) = sized (u_of text n)

    length-xor_all : (text : Bytes) (n : ℕ) → length (xor_all text n) ≡ hash_len
    unfolding xor_all
    length-xor_all text zero = length-u_of text zero
    length-xor_all text (suc n) =
        length-xor_bytes (xor_all text n) (u_of text (suc n)) ∙ length-xor_all text n

    -- The rounds from the n-th on.
    iterate_lem :
        (pre text : Bytes) (k n : ℕ)
        → iterate prf (length pre) k (u_of text n) (pre ++ xor_all text n)
          ≡ pre ++ xor_all text (n + k)
    unfolding iterate u_of xor_all
    iterate_lem pre text zero n = at_index (λ m. pre ++ xor_all text m) n (n + 0) (omega arith)
    iterate_lem pre text (suc k) n =
        let u = u_of text (suc n) in
        let fits : length u ≤ length (xor_all text n) =
          omega (arith, length-xor_all text n, length-u_of text (suc n)) in
        ap (iterate prf (length pre) k u) (xor_at_lem pre (xor_all text n) u fits)
        ∙ iterate_lem pre text k (suc n)
        ∙ at_index (λ m. pre ++ xor_all text m) (suc n + k) (n + suc k) (omega arith)

    add_block_lem :
        (salt : Bytes) (iter block : ℕ) (dk : Bytes)
        → add_block prf hash_len salt iter block dk
          ≡ dk ++ xor_all (salt ++ count_bytes block) (iter - 1)
    unfolding add_block u_of xor_all
    add_block_lem salt iter block dk =
        let text = salt ++ count_bytes block in
        let start : length (dk ++ prf text) - hash_len ≡ length dk =
          omega (arith, length-append dk (prf text), sized text) in
        rw start (
          iterate_lem dk text (iter - 1) 0
          ∙ at_index (λ m. dk ++ xor_all text m) (0 + (iter - 1)) (iter - 1) (omega arith))

    add_blocks_lem :
        (salt : Bytes) (iter n l block : ℕ)
        → block ≡ l + 1
        → add_blocks prf hash_len salt iter n block (blocks salt iter l) ≡ blocks salt iter (l + n)
    unfolding add_blocks blocks
    add_blocks_lem salt iter zero l block h = at_index (blocks salt iter) l (l + 0) (omega arith)
    add_blocks_lem salt iter (suc n) l block h =
        let one : add_block prf hash_len salt iter block (blocks salt iter l)
            ≡ blocks salt iter (suc l) =
          add_block_lem salt iter block (blocks salt iter l)
          ∙ ap (λ m. blocks salt iter l ++ xor_all (salt ++ count_bytes m) (iter - 1)) h in
        ap (add_blocks prf hash_len salt iter n (block + 1)) one
        ∙ add_blocks_lem salt iter n (suc l) (block + 1) (omega (arith, h))
        ∙ at_index (blocks salt iter) (suc l + n) (l + suc n) (omega arith)

    length-blocks : (salt : Bytes) (iter l : ℕ) → length (blocks salt iter l) ≡ l * hash_len
    unfolding blocks
    length-blocks salt iter zero = omega arith
    length-blocks salt iter (suc l) =
        let t = xor_all (salt ++ count_bytes (l + 1)) (iter - 1) in
        omega (
          arith,
          length-append (blocks salt iter l) t,
          length-blocks salt iter l,
          length-xor_all (salt ++ count_bytes (l + 1)) (iter - 1),
        )

    -- More blocks change nothing of the first ones.
    take-blocks :
        (salt : Bytes) (iter k l n : ℕ)
        → k ≤ l * hash_len
        → take k (blocks salt iter (l + n)) ≡ take k (blocks salt iter l)
    unfolding blocks
    take-blocks salt iter k l zero h =
        at_index (λ m. take k (blocks salt iter m)) (l + 0) l (omega arith)
    take-blocks salt iter k l (suc n) h =
        let t = xor_all (salt ++ count_bytes (l + n + 1)) (iter - 1) in
        at_index (λ m. take k (blocks salt iter m)) (l + suc n) (suc (l + n)) (omega arith)
        ∙ take-append k (blocks salt iter (l + n)) t
            (omega (arith, h, length-blocks salt iter (l + n), scaled_le l n hash_len))
        ∙ take-blocks salt iter k l n h

    -- `pbkdf2key` is PBKDF2 of RFC 2898: the first octets of T_1 || T_2 || ..., however many of these
    -- are taken, if they have keyLen octets. The pseudo-random function has outputs of one positive
    -- size.
    pub pbkdf2key_lem :
        (salt : Bytes) (iter key_len l : ℕ)
        → 0 < hash_len
        → key_len ≤ l * hash_len
        → pbkdf2key prf hash_len salt iter key_len ≡ take key_len (blocks salt iter l)
    unfolding pbkdf2key blocks
    pbkdf2key_lem salt iter key_len l pos h =
        let n = num_blocks key_len hash_len in
        let both : blocks salt iter (n + l) ≡ blocks salt iter (l + n) =
          at_index (blocks salt iter) (n + l) (l + n) (omega arith) in
        ap (take key_len) (
          add_blocks_lem salt iter n 0 1 (omega arith)
          ∙ at_index (blocks salt iter) (0 + n) n (omega arith))
        ∙ sym (take-blocks salt iter key_len n l (enough key_len hash_len pos))
        ∙ ap (take key_len) both
        ∙ take-blocks salt iter key_len l n h
