-- ===== src/Crypto/Aes/Padding.antt =====
-- gcrypto/aes128.go: the padding of `encrypt` and its removal in `decrypt`.
use gokits.Prelude.{
  ◌≡◌, refl, ap, sym, ◌∙◌, ℕ, ◌+◌, ◌-◌, ◌≤◌, ◌<◌, zero, suc, some, List, [], ◌∷◌, ◌++◌, length,
  length-append, length-replicate, take, drop, replicate, get_elem?, arith,
}
use gokits.Crypto.Aes.{pad, unpad, ok, err, aes_padding}

module _ {ℓ} {A : Type ℓ} where
  pub take-append : (xs ys : List A) → take (length xs) (xs ++ ys) ≡ xs
  take-append [] ys = refl
  take-append (x ∷ xs) ys = ap (λ l. x ∷ l) (take-append xs ys)

  pub drop-append : (xs ys : List A) → drop (length xs) (xs ++ ys) ≡ ys
  drop-append [] ys = refl
  drop-append (x ∷ xs) ys = drop-append xs ys

  append-[] : (xs : List A) → xs ++ [] ≡ xs
  append-[] [] = refl
  append-[] (x ∷ xs) = ap (λ l. x ∷ l) (append-[] xs)

  append_assoc : (xs ys zs : List A) → (xs ++ ys) ++ zs ≡ xs ++ (ys ++ zs)
  append_assoc [] ys zs = refl
  append_assoc (x ∷ xs) ys zs = ap (λ l. x ∷ l) (append_assoc xs ys zs)

  get_elem?-append :
      (xs ys : List A) (k : ℕ)
      → length xs ≤ k
      → get_elem? (xs ++ ys) k ≡ get_elem? ys (k - length xs)
  get_elem?-append [] ys k h = ap (get_elem? ys) (omega arith)
  get_elem?-append (x ∷ xs) ys zero h = absurd (omega arith)
  get_elem?-append (x ∷ xs) ys (suc k) h =
      get_elem?-append xs ys k (omega arith) ∙ ap (get_elem? ys) (omega arith)

  get_elem?-replicate : (n i : ℕ) (a : A) → i < n → get_elem? (replicate n a) i ≡ some a
  get_elem?-replicate zero i a h = absurd (omega arith)
  get_elem?-replicate (suc n) zero a h = refl
  get_elem?-replicate (suc n) (suc i) a h = get_elem?-replicate n i a (omega arith)

pad-replicate : (n v : ℕ) (src : List ℕ) → pad n v src ≡ src ++ replicate n v
unfolding pad
pad-replicate zero v src = sym (append-[] src)
pad-replicate (suc n) v src =
    pad-replicate n v (src ++ v ∷ []) ∙ append_assoc src (v ∷ []) (replicate n v)

pub length-pad : (n v : ℕ) (src : List ℕ) → length (pad n v src) ≡ length src + n
length-pad n v src =
    rw (pad-replicate n v src)
      (length-append src (replicate n v) ∙ ap (λ k. length src + k) (length-replicate n v))

last-pad : (n : ℕ) (src : List ℕ) → 0 < n → get_elem? (pad n n src) (length src + n - 1) ≡ some n
last-pad n src h = rw (pad-replicate n n src) (
    get_elem?-append src (replicate n n) (length src + n - 1) (omega arith)
    ∙ get_elem?-replicate n (length src + n - 1 - length src) n (omega arith))

take-pad : (n v : ℕ) (src : List ℕ) → take (length src) (pad n v src) ≡ src
take-pad n v src = rw (pad-replicate n v src) (take-append src (replicate n v))

pub unpad_last :
    (n : ℕ) (text : List ℕ)
    → get_elem? text (length text - 1) ≡ some n
    → n ≤ 16
    → n ≤ length text
    → unpad text ≡ ok (take (length text - n) text)
unfolding unpad
unpad_last n text h h' k = ground (arith, h)

-- Removing the padding gives back the text, for a padding of 1 to 16 bytes.
pub unpad-pad : (n : ℕ) (src : List ℕ) → 0 < n → n ≤ 16 → unpad (pad n n src) ≡ ok src
unpad-pad n src h h' =
    let len = length-pad n n src in
    unpad_last n (pad n n src) (ap (λ k. get_elem? (pad n n src) (k - 1)) len ∙ last-pad n src h) h'
      (omega (arith, len))
    ∙ ap (λ k. ok (take k (pad n n src))) (ap (λ k. k - n) len ∙ omega arith)
    ∙ ap (λ l. ok l) (take-pad n n src)

pub get_elem?_inside {ℓ} :
    {A : Type ℓ} (xs : List A) (i : ℕ) → i < length xs → (x : A) × (get_elem? xs i ≡ some x)
get_elem?_inside [] i h = absurd (omega arith)
get_elem?_inside (x ∷ xs) zero h = (x, refl)
get_elem?_inside (x ∷ xs) (suc i) h = get_elem?_inside xs i (omega arith)

pub unpad_refused :
    (n : ℕ) (text : List ℕ)
    → get_elem? text (length text - 1) ≡ some n
    → 16 < n
    → unpad text ≡ err aes_padding
unfolding unpad
unpad_refused n text h h' = ground (arith, h)
