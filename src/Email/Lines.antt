-- ===== src/Email/Lines.antt =====
-- gnet/gemail/email.go: how many lines of a mail pass a test that its headers cannot pass.
use mathlib.Core.List.{append_assoc}
use gokits.Prelude.{
  ℕ, ◌+◌, ◌≡◌, refl, sym, ap, ◌∙◌, Bool, true, false, List, [], ◌∷◌, ◌++◌, length, drop, arith,
  if◌then◌else◌, ◌==◌, ltb, Bool-cases, inl, inr,
}
use gokits.Prelude.Text.{
  Bytes, text, newline, IsOneLine, scan, scan-line, scan-last, scan-newline, append-IsOneLine,
}
use gokits.Email.{
  Attachment, Message, attached, boundary, part_headers, part_data, part, parts, headers, mixed,
  body_part, bytes,
}

-- The line before a part, and the line after the last part.
abbrev pub delimiter : Bytes
delimiter = text "--" ++ boundary

abbrev pub closing : Bytes
closing = delimiter ++ text "--"

-- A line that no dash begins.
abbrev pub NotDashed : Bytes → Type 0
NotDashed [] = Unit
NotDashed (b ∷ s) = (b == 45) ≡ false

abbrev pub AllOneLine : List Bytes → Type 0
AllOneLine [] = Unit
AllOneLine (s ∷ ss) = IsOneLine s × AllOneLine ss

-- What strings.Join and base64 promise of their results.
pub record IsMailText (join : List Bytes → Bytes → Bytes) (base64 : Bytes → Bytes) : Type 0 where
  pub join_line :
      (ss : List Bytes) (sep : Bytes) → AllOneLine ss → IsOneLine sep → IsOneLine (join ss sep)
  pub base64_line : (s : Bytes) → IsOneLine (base64 s)
  pub base64_dash : (s : Bytes) → NotDashed (base64 s)

-- The fields that stand in the headers are one line each.
pub record HasPlainHeaders (m : Message) : Type 0 where
  pub from_line : IsOneLine m.from
  pub to_line : AllOneLine m.to
  pub cc_line : AllOneLine m.cc
  pub subject_line : IsOneLine m.subject
  pub type_line : IsOneLine m.body_content_type

module _ (p : Bytes → Bool) where
  -- What a part says of itself is one line each, and its data has no line that passes the test.
  abbrev pub IsClean : Attachment → Type 0
  IsClean a = IsOneLine a.filename × (a.inline ≡ true → scan p [] a.content ≡ 0)

  abbrev pub AllClean : List (Bytes × Attachment) → Type 0
  AllClean [] = Unit
  AllClean ((n, a) ∷ range) = IsClean a × AllClean range

  -- What the parts add: each has a delimiter before it and one after it, and the last is closed.
  abbrev pub of_parts : List (Bytes × Attachment) → ℕ
  of_parts [] = if p closing then 1 else 0
  of_parts (x ∷ range) =
      (if p delimiter then 1 else 0) + ((if p delimiter then 1 else 0) + of_parts range)

  abbrev pub of_range : List (Bytes × Attachment) → ℕ
  of_range [] = 0
  of_range (x ∷ range) = of_parts (x ∷ range)

module _ {join : List Bytes → Bytes → Bytes} {base64 : Bytes → Bytes} (law : IsMailText join base64)
    (p : Bytes → Bool) (p_nil : p [] ≡ false)
    (p_plain : (b : ℕ) (s : Bytes) → (b == 45) ≡ false → p (b ∷ s) ≡ false) where
  -- A header, of which the name has been read.
  scan-value :
      (b : ℕ) (l s t : Bytes)
      → (b == 45) ≡ false
      → IsOneLine s
      → scan p (b ∷ l) (s ++ (newline ∷ t)) ≡ scan p [] t
  unfolding scan
  scan-value b l s t e h =
      rw (scan-line p (b ∷ l) s (newline ∷ t) h, p_plain b (l ++ s) e) (omega arith)

  scan-headers :
      (date : Bytes) (m : Message) (t : Bytes)
      → HasPlainHeaders m
      → IsOneLine date
      → scan p [] (headers join date m ++ t) ≡ scan p [] t
  unfolding scan IsOneLine
  scan-headers date m t h d = elim (Bool-cases (ltb 0 (length m.cc))) [
    | inl e ↦ rw e (
        simp append_assoc (
          scan-value 70 (text "rom: ") m.from _ refl h.from_line
          ∙ scan-value 68 (text "ate: ") date _ refl d
          ∙ scan-value 84 (text "o: ") (join m.to (text ",")) _ refl
              (law.join_line m.to (text ",") h.to_line refl)
          ∙ scan-value 67 (text "c: ") (join m.cc (text ",")) _ refl
              (law.join_line m.cc (text ",") h.cc_line refl)
          ∙ scan-value 83 (text "ubject: ") m.subject _ refl h.subject_line
          ∙ scan-value 77 (text "IME-Version: 1.0") [] t refl refl))
    | inr e ↦ rw e (
        simp append_assoc (
          scan-value 70 (text "rom: ") m.from _ refl h.from_line
          ∙ scan-value 68 (text "ate: ") date _ refl d
          ∙ scan-value 84 (text "o: ") (join m.to (text ",")) _ refl
              (law.join_line m.to (text ",") h.to_line refl)
          ∙ scan-value 83 (text "ubject: ") m.subject _ refl h.subject_line
          ∙ scan-value 77 (text "IME-Version: 1.0") [] t refl refl))
  ]

  scan-blank : (t : Bytes) → scan p [] (newline ∷ t) ≡ scan p [] t
  unfolding scan
  scan-blank t = rw p_nil (omega arith)

  -- A header whose line ends with a literal.
  scan-quoted :
      (b : ℕ) (l s u t : Bytes)
      → (b == 45) ≡ false
      → IsOneLine s
      → IsOneLine u
      → scan p (b ∷ l) (s ++ (u ++ (newline ∷ t))) ≡ scan p [] t
  scan-quoted b l s u t e h k =
      ap (scan p (b ∷ l)) (sym (append_assoc s u (newline ∷ t)))
      ∙ scan-value b l (s ++ u) t e (append-IsOneLine s u h k)

  scan-mixed :
      (m : Message) (t : Bytes)
      → ltb 0 (length m.attachments) ≡ true
      → scan p [] (mixed m ++ t) ≡ (if p delimiter then 1 else 0) + scan p [] t
  unfolding scan IsOneLine
  scan-mixed m t e = rw e (
      scan-value 67 (text "ontent-Type: multipart/mixed; boundary=" ++ boundary) []
        (delimiter ++ (newline ∷ t)) refl refl)

  scan-body_part :
      (m : Message) (t : Bytes)
      → HasPlainHeaders m
      → scan p [] (body_part m ++ t) ≡ scan p [] m.body + scan p [] t
  unfolding scan IsOneLine
  scan-body_part m t h = simp append_assoc (
      scan-quoted 67 (text "ontent-Type: ") m.body_content_type (text "; charset=utf-8")
        (newline ∷ (m.body ++ (newline ∷ t))) refl h.type_line refl
      ∙ scan-blank (m.body ++ (newline ∷ t))
      ∙ scan-newline p [] m.body t)

  scan-undashed : (s : Bytes) → IsOneLine s → NotDashed s → scan p [] s ≡ 0
  unfolding scan
  scan-undashed [] h n = rw p_nil refl
  scan-undashed (b ∷ s) h n = scan-last p (b ∷ s) h ∙ first n
    where
      first : (b == 45) ≡ false → scan p (b ∷ s) [] ≡ 0
      first e = rw (p_plain b s e) refl

  scan-part_headers :
      (a : Attachment) (t : Bytes)
      → IsOneLine a.filename
      → scan p [] (part_headers a ++ t) ≡ scan p [] t
  unfolding scan IsOneLine
  scan-part_headers a t h =
      let quoted : Bytes = a.filename ++ (text "\"\n\n" ++ t) in
      elim (Bool-cases a.inline) [
        | inl e ↦ rw e (
            simp append_assoc (
              scan-value 67 (text "ontent-Type: message/rfc822") []
                (text "Content-Disposition: inline; filename=\"" ++ quoted) refl refl
              ∙ scan-quoted 67 (text "ontent-Disposition: inline; filename=\"") a.filename
                  (text "\"") (newline ∷ t) refl h refl
              ∙ scan-blank t))
        | inr e ↦ rw e (
            simp append_assoc (
              scan-value 67 (text "ontent-Type: application/octet-stream") []
                (text "Content-Transfer-Encoding: base64\n"
                  ++ (text "Content-Disposition: attachment; filename=\"" ++ quoted))
                refl refl
              ∙ scan-value 67 (text "ontent-Transfer-Encoding: base64") []
                  (text "Content-Disposition: attachment; filename=\"" ++ quoted) refl refl
              ∙ scan-quoted 67 (text "ontent-Disposition: attachment; filename=\"") a.filename
                  (text "\"") (newline ∷ t) refl h refl
              ∙ scan-blank t))
      ]

  scan-part_data :
      (a : Attachment) (t : Bytes)
      → IsClean p a
      → scan p [] (part_data base64 a ++ (newline ∷ t)) ≡ scan p [] t
  scan-part_data a t (h, clean) = elim (Bool-cases a.inline) [
    | inl e ↦ rw e (omega (arith, scan-newline p [] a.content t, clean e))
    | inr e ↦ rw e (
        let s : Bytes = base64 a.content in
        omega (
          arith,
          scan-newline p [] s t,
          scan-undashed s (law.base64_line a.content) (law.base64_dash a.content),
        ))
  ]

  scan-part :
      (a : Attachment) (t : Bytes)
      → IsClean p a
      → scan p [] (part base64 a ++ t) ≡ (if p delimiter then 1 else 0) + scan p delimiter t
  unfolding scan
  scan-part a t clean =
      let s : Bytes = part_data base64 a ++ (newline ∷ delimiter) in
      scan-blank (newline ∷ (delimiter ++ (newline ∷ ((part_headers a ++ s) ++ t))))
      ∙ scan-blank (delimiter ++ (newline ∷ ((part_headers a ++ s) ++ t)))
      ∙ ap (λ n. (if p delimiter then 1 else 0) + n)
          (ap (scan p []) (append_assoc (part_headers a) s t)
            ∙ scan-part_headers a (s ++ t) clean.0
            ∙ ap (scan p []) (append_assoc (part_data base64 a) (newline ∷ delimiter) t)
            ∙ scan-part_data a (delimiter ++ t) clean)

  scan-parts :
      (n : Bytes) (a : Attachment) (range : List (Bytes × Attachment))
      → IsClean p a
      → AllClean p range
      → scan p [] (parts base64 ((n, a) ∷ range) ++ text "--")
        ≡ (if p delimiter then 1 else 0) + of_parts p range
  unfolding scan
  scan-parts n a [] h hs =
      ap (scan p []) (append_assoc (part base64 a) [] (text "--")) ∙ scan-part a (text "--") h
  scan-parts n a ((m, b) ∷ range) h (k, hs) =
      let rest : Bytes = parts base64 ((m, b) ∷ range) ++ text "--" in
      ap (scan p []) (append_assoc (part base64 a) (parts base64 ((m, b) ∷ range)) (text "--"))
      ∙ scan-part a rest h
      ∙ ap (λ x. (if p delimiter then 1 else 0) + ((if p delimiter then 1 else 0) + x))
          (sym (scan-blank (drop 1 rest)) ∙ scan-parts m b range k hs)

  -- The lines of a mail that pass the test.
  pub scan-bytes :
      (date : Bytes) (range : List (Bytes × Attachment)) (m : Message)
      → HasPlainHeaders m
      → IsOneLine date
      → scan p [] m.body ≡ 0
      → length range ≡ length m.attachments
      → AllClean p range
      → scan p [] (bytes join base64 date range m) ≡ of_range p range
  unfolding scan bytes
  scan-bytes date [] m h d b e c =
      let none_left : ltb 0 (length m.attachments) ≡ false = ground (arith, e) in
      let t : Bytes = mixed m ++ (body_part m ++ attached base64 [] m) in
      let after_headers : scan p [] t ≡ 0 =
        rw none_left (scan-body_part m [] h ∙ (rw (b, p_nil) refl)) in
      scan-headers date m t h d ∙ after_headers
  scan-bytes date ((n, a) ∷ range) m h d b e (c, cs) =
      let some_left : ltb 0 (length m.attachments) ≡ true = ground (arith, e) in
      let tail : Bytes = attached base64 ((n, a) ∷ range) m in
      let parts_count : scan p [] tail ≡ (if p delimiter then 1 else 0) + of_parts p range =
        rw some_left (scan-parts n a range c cs) in
      scan-headers date m (mixed m ++ (body_part m ++ tail)) h d
      ∙ scan-mixed m (body_part m ++ tail) some_left
      ∙ omega (arith, scan-body_part m tail h, b, parts_count)
