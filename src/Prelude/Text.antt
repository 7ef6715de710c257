-- ===== src/Prelude/Text.antt =====
-- Texts as lists of bytes: ASCII literals, equality, and the lines of a text.
use Prim.Native.Char.{code}
use Prim.Native.String.{String}
use gokits.Prelude.{
  ℕ, ◌+◌, ◌≡◌, refl, sym, ap, ◌∙◌, subst, Bool, true, false, List, [], ◌∷◌, ◌++◌, ◌==◌, arith,
  if◌then◌else◌, Bool-cases, inl, inr,
}
use mathlib.Core.List.{append_assoc, append-nil}
use gokits.Prelude.Eq.{Eq}

abbrev pub Bytes : Type 0
Bytes = List ℕ

-- The bytes of a literal, which is ASCII.
abbrev pub text : String → Bytes
text String.[] = []
text (String.◌∷◌ c s) = code c ∷ text s

abbrev pub same_text : Bytes → Bytes → Bool
same_text [] [] = true
same_text [] (c ∷ t) = false
same_text (b ∷ s) [] = false
same_text (b ∷ s) (c ∷ t) = if b == c then same_text s t else false

pub same_text_refl : (s : Bytes) → same_text s s ≡ true
same_text_refl [] = refl
same_text_refl (b ∷ s) = ground (arith, same_text_refl s)

pub same_text→eq : (s t : Bytes) → same_text s t ≡ true → s ≡ t
same_text→eq [] [] e = refl
same_text→eq [] (c ∷ t) e = ground arith
same_text→eq (b ∷ s) [] e = ground arith
same_text→eq (b ∷ s) (c ∷ t) e = elim (Bool-cases (b == c)) [
  | inl y ↦
      let p : b ≡ c = ground (arith, y) in
      let q : same_text s t ≡ true = ground (arith, e, y) in cc (p, same_text→eq s t q)
  | inr n ↦ ground (arith, e, n)
]

instance abbrev pub eq_of_text : Eq Bytes
eq_of_text = record {
  same = same_text;
  same_iff = λ s t. (same_text→eq s t, λ e. subst (λ u. same_text s u ≡ true) e (same_text_refl s));
}

abbrev pub newline : ℕ
newline = 10

abbrev pub is_one_line : Bytes → Bool
is_one_line [] = true
is_one_line (b ∷ s) = if b == newline then false else is_one_line s

unfoldable pub IsOneLine : Bytes → Type 0
IsOneLine s = is_one_line s ≡ true

pub append-IsOneLine : (s t : Bytes) → IsOneLine s → IsOneLine t → IsOneLine (s ++ t)
unfolding IsOneLine
append-IsOneLine [] t h k = k
append-IsOneLine (b ∷ s) t h k = ground (arith, h, k, append-IsOneLine s t)

pub tail-IsOneLine :
    (b : ℕ) (s : Bytes) → IsOneLine (b ∷ s) → ((b == newline) ≡ false) × IsOneLine s
unfolding IsOneLine
tail-IsOneLine b s h = ground arith

-- The number of lines of `s` that pass a test, where `l` is what stands before `s` on its first line.
-- The last line counts, also when no newline ends it.
unfoldable pub scan : (Bytes → Bool) → Bytes → Bytes → ℕ
scan p l [] = if p l then 1 else 0
scan p l (b ∷ s) =
    let here = scan p (l ++ (b ∷ [])) s in
    let next = scan p [] s in if b == newline then (if p l then 1 else 0) + next else here

pub scan-line :
    (p : Bytes → Bool) (l s t : Bytes) → IsOneLine s → scan p l (s ++ t) ≡ scan p (l ++ s) t
unfolding scan IsOneLine
scan-line p l [] t h = ap (λ u. scan p u t) (sym (append-nil l))
scan-line p l (b ∷ s) t h =
    let q : ((b == newline) ≡ false) × IsOneLine s = tail-IsOneLine b s h in
    let rest : scan p (l ++ (b ∷ [])) (s ++ t) ≡ scan p ((l ++ (b ∷ [])) ++ s) t =
      scan-line p (l ++ (b ∷ [])) s t q.1 in
    rw q.0 (rest ∙ ap (λ u. scan p u t) (append_assoc l (b ∷ []) s))

pub scan-newline :
    (p : Bytes → Bool) (l s t : Bytes) → scan p l (s ++ (newline ∷ t)) ≡ scan p l s + scan p [] t
unfolding scan
scan-newline p l [] t = refl
scan-newline p l (b ∷ s) t = elim (Bool-cases (b == newline)) [
  | inl e ↦ rw e (omega (arith, scan-newline p [] s t))
  | inr e ↦ rw e (scan-newline p (l ++ (b ∷ [])) s t)
]

pub scan-last : (p : Bytes → Bool) (s : Bytes) → IsOneLine s → scan p [] s ≡ scan p s []
scan-last p s h = ap (λ u. scan p [] u) (sym (append-nil s)) ∙ scan-line p [] s [] h
