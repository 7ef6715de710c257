-- ===== src/Strings/HumanBytes/RoundTrip.antt =====
-- gstr/human_bytes.go: Parse reads what Format writes.
use gokits.Prelude.{
  ℕ, ◌*◌, ◌/◌, ◌^◌, ◌≤◌, ◌<◌, ◌≡◌, refl, sym, subst, ap, ◌∙◌, some, ◌++◌, arith, ◌==◌, Bool-cases,
  inl, inr,
}
use gokits.Prelude.Int.{ℤ, pos, negsuc}
use gokits.Prelude.Text.{Bytes, text}
use gokits.Strings.HumanBytes.{
  HumanText, format, parse, kb, mb, gb, tb, pb, eb, scaled, read_groups, read_number,
}

pub data Multiple : Type 0 where
  kilo mega giga tera peta exa : Multiple

abbrev pub unit : Multiple → ℕ
unit kilo = kb
unit mega = mb
unit giga = gb
unit tera = tb
unit peta = pb
unit exa = eb

-- A quarter of a unit.
abbrev pub quarter : Multiple → ℕ
quarter kilo = 256
quarter mega = 262144
quarter giga = 268435456
quarter tera = 274877906944
quarter peta = 281474976710656
quarter exa = 288230376151711744

abbrev pub letters : Multiple → Bytes
letters kilo = text "KB"
letters mega = text "MB"
letters giga = text "GB"
letters tera = text "TB"
letters peta = text "PB"
letters exa = text "EB"

-- A number of quarters of a unit, as the float64 that Format divides.
abbrev pub in_quarters : {F : Type 0} → HumanText F → ℕ → Multiple → F
in_quarters h m u = h.div (h.of_int (pos (m * quarter u))) (h.of_int (pos (unit u)))

-- Documented behaviour: a formatted integer is matched and read back; float64 is exact on integers
-- below 2^53, and on what is such an integer times a power of two, which the multiples are; `%.2f`
-- loses nothing of a number of quarters, so what it writes of one is matched and read back.
pub record IsHumanText {F : Type 0} (h : HumanText F) : Type 0 where
  pub submatch_zero : h.submatch (text "0") ≡ some (text "0", text "")
  pub float_zero : h.parse_float (text "0") ≡ some (h.of_int (pos 0))
  pub submatch_int :
      (b : ℤ) → h.submatch (h.format_int b ++ text "B") ≡ some (h.format_int b, text "B")
  pub float_pos :
      (n : ℕ) → n < 2 ^ 53 → h.parse_float (h.format_int (pos n)) ≡ some (h.of_int (pos n))
  pub float_neg :
      (n : ℕ) → n < 2 ^ 53 → h.parse_float (h.format_int (negsuc n)) ≡ some (h.of_int (negsuc n))
  pub int_pos : (n : ℕ) → n < 2 ^ 53 → h.to_int (h.of_int (pos n)) ≡ pos n
  pub int_neg : (n : ℕ) → n < 2 ^ 53 → h.to_int (h.of_int (negsuc n)) ≡ negsuc n
  pub scale_exact :
      (m : ℕ) (u : Multiple)
      → m < 4096
      → m * quarter u < 2 ^ 63
      → h.to_int (h.mul (in_quarters h m u) (h.of_int (pos (unit u)))) ≡ pos (m * quarter u)
  pub submatch_print :
      (m : ℕ) (u : Multiple)
      → m < 4096
      → h.submatch (h.print (in_quarters h m u) ++ letters u)
        ≡ some (h.print (in_quarters h m u), letters u)
  pub float_print :
      (m : ℕ) (u : Multiple)
      → m < 4096
      → h.parse_float (h.print (in_quarters h m u)) ≡ some (in_quarters h m u)

-- The int64 below 1024, down to -2^53, and of the larger ones those of whose quotient by their unit
-- two decimals lose nothing: as the unit is a power of two, these are the numbers of quarters of it.
pub data IsExact : ℤ → Type 0 where
  small : (n : ℕ) → n < 1024 → IsExact (pos n)
  negative : (n : ℕ) → n < 2 ^ 53 → IsExact (negsuc n)
  quarters :
      (m : ℕ) (u : Multiple)
      → 4 ≤ m
      → m < 4096
      → m * quarter u < 2 ^ 63
      → IsExact (pos (m * quarter u))

whole_quarters :
    (n j : ℕ) (u : Multiple)
    → unit u ≤ n
    → n < 1024 * unit u
    → 100 * n ≡ j * unit u
    → (n / quarter u * quarter u ≡ n) × (4 ≤ n / quarter u) × (n / quarter u < 4096)
whole_quarters n j kilo low high e = (omega arith, omega arith, omega arith)
whole_quarters n j mega low high e = (omega arith, omega arith, omega arith)
whole_quarters n j giga low high e = (omega arith, omega arith, omega arith)
whole_quarters n j tera low high e = (omega arith, omega arith, omega arith)
whole_quarters n j peta low high e = (omega arith, omega arith, omega arith)
whole_quarters n j exa low high e = (omega arith, omega arith, omega arith)

-- Those are all: a number in a unit's range of which two decimals say everything is one.
pub hundredths-IsExact :
    (n j : ℕ) (u : Multiple)
    → unit u ≤ n
    → n < 1024 * unit u
    → n < 2 ^ 63
    → 100 * n ≡ j * unit u
    → IsExact (pos n)
hundredths-IsExact n j u low high fits e =
    let m : ℕ = n / quarter u in
    let all = whole_quarters n j u low high e in
    subst (λ k. IsExact (pos k)) all.0
      (quarters m u all.1 all.2 (subst (λ k. k < 2 ^ 63) (sym all.0) fits))

module _ {F : Type 0} {h : HumanText F} (laws : IsHumanText h) where
  format_quarters :
      (m : ℕ) (u : Multiple)
      → 4 ≤ m
      → m < 4096
      → m * quarter u < 2 ^ 63
      → format h (pos (m * quarter u)) ≡ h.print (in_quarters h m u) ++ letters u
  unfolding format
  format_quarters m kilo a b c = ground arith
  format_quarters m mega a b c = ground arith
  format_quarters m giga a b c = ground arith
  format_quarters m tera a b c = ground arith
  format_quarters m peta a b c = ground arith
  format_quarters m exa a b c = ground arith

  scaled_whole :
      (x : F) (u : Multiple) → scaled h x (letters u) ≡ h.to_int (h.mul x (h.of_int (pos (unit u))))
  scaled_whole x kilo = refl
  scaled_whole x mega = refl
  scaled_whole x giga = refl
  scaled_whole x tera = refl
  scaled_whole x peta = refl
  scaled_whole x exa = refl

  -- What is printed of a value is read as the number that the groups give.
  parse_groups :
      (s number multiple : Bytes) (x : F)
      → h.submatch s ≡ some (number, multiple)
      → h.parse_float number ≡ some x
      → parse h s ≡ some (scaled h x multiple)
  unfolding parse
  parse_groups s number multiple x e f = ap (read_groups h) e ∙ ap (λ o. read_number h o multiple) f

  format_small : (n : ℕ) → n < 1024 → 0 < n → format h (pos n) ≡ h.format_int (pos n) ++ text "B"
  unfolding format
  format_small n few some_n = ground arith

  -- Parse reads back what Format wrote, of every number below 1024, of the negative ones down to -2^53,
  -- and of the larger ones that are a whole number of quarters of the unit that Format chooses.
  pub parse-format : (b : ℤ) → IsExact b → parse h (format h b) ≡ some b
  unfolding format
  parse-format b (small n few) = elim (Bool-cases (n == 0)) [
    | inl e ↦
        let z : n ≡ 0 = ground (arith, e) in
        rw z (
          parse_groups (text "0") (text "0") (text "") (h.of_int (pos 0)) laws.submatch_zero
            laws.float_zero
          ∙ ap some (laws.int_pos 0 (omega arith)))
    | inr e ↦
        let big : n < 2 ^ 53 = omega arith in
        let some_n : 0 < n = ground (arith, e) in
        ap (parse h) (format_small n few some_n)
        ∙ parse_groups (h.format_int (pos n) ++ text "B") (h.format_int (pos n)) (text "B")
            (h.of_int (pos n)) (laws.submatch_int (pos n)) (laws.float_pos n big)
        ∙ ap some (laws.int_pos n big)
  ]
  parse-format b (negative n few) =
      parse_groups (format h (negsuc n)) (h.format_int (negsuc n)) (text "B") (h.of_int (negsuc n))
        (laws.submatch_int (negsuc n)) (laws.float_neg n few)
      ∙ ap some (laws.int_neg n few)
  parse-format b (quarters m u some_m few fits) =
      let x : F = in_quarters h m u in
      ap (parse h) (format_quarters m u some_m few fits)
      ∙ parse_groups (h.print x ++ letters u) (h.print x) (letters u) x
          (laws.submatch_print m u few) (laws.float_print m u few)
      ∙ ap some (scaled_whole x u ∙ laws.scale_exact m u few fits)
