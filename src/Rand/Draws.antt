-- ===== src/Rand/Draws.antt =====
-- grand/rand.go: texts and numbers out of draws.
use native.Mathlib.Nat.{mod-lt}
use gokits.Prelude.{
  ℕ, zero, suc, ◌+◌, ◌%◌, ◌≡◌, ◌<◌, ◌∙◌, refl, ap, false, some, [], ◌∷◌, length, get_elem?, ◌==◌,
  arith,
}
use gokits.Rand.{Bytes, byte_of, string_rand, norm_loop, norm_rand}
use gokits.Rand.Uuid.{All}

-- The byte stands in the text.
unfoldable pub Occurs : ℕ → Bytes → Type 0
Occurs b s = (i : ℕ) × (get_elem? s i ≡ some b)

in_range : (s : Bytes) (i : ℕ) → i < length s → get_elem? s i ≡ some (byte_of (get_elem? s i))
in_range [] i h = absurd (omega (arith, h))
in_range (x ∷ s) zero h = refl
in_range (x ∷ s) (suc i) h = in_range s i (omega (arith, h))

-- `StringRand` on a range that is not empty gives n characters out of it, whatever is drawn.
pub string_rand_lem :
    (draw : ℕ → ℕ) (range : Bytes) (i n : ℕ)
    → 0 < length range
    → (text : Bytes) × (string_rand draw range i n ≡ some text)
      × (length text ≡ n)
      × All (λ b. Occurs b range) text
unfolding string_rand Occurs
string_rand_lem draw range i zero h = ([], refl, refl, tt)
string_rand_lem draw range i (suc n) h =
    let (text, e, sized, all) = string_rand_lem draw range (i + 1) n h in
    let k = draw i % length range in
    let some_left : (length range == 0) ≡ false = ground (arith, h) in
    (
      byte_of (get_elem? range k) ∷ text,
      rw (some_left, e) refl,
      ap suc sized,
      ((k, in_range range k (mod-lt (draw i) h)), all),
    )

norm_loop_bound :
    (draw : ℕ → ℕ) (n i k sample : ℕ) → 0 < n → sample < n → norm_loop draw n i k sample < n
unfolding norm_loop
norm_loop_bound draw n i zero sample pos h = h
norm_loop_bound draw n i (suc k) sample pos h =
    norm_loop_bound draw n (i + 1) k (draw i % n) pos (mod-lt (draw i) pos)

draw_at : (draw : ℕ → ℕ) (n i j : ℕ) → i ≡ j → draw i % n ≡ draw j % n
draw_at draw n i j e = ap (λ m. draw m % n) e

norm_loop_last :
    (draw : ℕ → ℕ) (n i k sample : ℕ) → norm_loop draw n i (suc k) sample ≡ draw (i + k) % n
unfolding norm_loop
norm_loop_last draw n i zero sample = draw_at draw n i (i + 0) (omega arith)
norm_loop_last draw n i (suc k) sample =
    norm_loop_last draw n (i + 1) k (draw i % n)
    ∙ draw_at draw n (i + 1 + k) (i + suc k) (omega arith)

-- `NormRand` gives a number below n where n is positive, and only its last sample counts.
pub norm_rand_lem :
    (draw : ℕ → ℕ) (n : ℕ)
    → (norm_rand draw (suc n) < suc n) × (norm_rand draw (suc n) ≡ draw n % suc n)
unfolding norm_rand
norm_rand_lem draw n = (
  norm_loop_bound draw (suc n) 0 (suc n) 0 (omega arith) (omega arith),
  norm_loop_last draw (suc n) 0 n 0 ∙ draw_at draw (suc n) (0 + n) n (omega arith),
)
