-- ===== src/Email/Delimiters.antt =====
-- gnet/gemail/email.go: the lines that delimit the parts of a mail, as a reader of RFC 2046 meets them.
use gokits.Prelude.{
  ℕ, ◌*◌, ◌≡◌, refl, ap, ◌∙◌, true, false, List, [], ◌∷◌, length, drop, arith, if◌then◌else◌, ◌==◌,
  ltb,
}
use gokits.Prelude.Text.{Bytes, same_text, IsOneLine, scan}
use gokits.Email.{Attachment, Message, bytes}
use gokits.Email.Lines.{
  delimiter, closing, IsMailText, HasPlainHeaders, AllClean, of_parts, of_range, scan-bytes,
}

-- The number of lines of a text that are the line given.
abbrev pub lines_that_are : Bytes → Bytes → ℕ
lines_that_are line s = scan (same_text line) [] s

-- A line test that a mail's headers cannot pass.
same_text-undashed :
    (l : Bytes) (b : ℕ) (s : Bytes) → (b == 45) ≡ false → same_text (45 ∷ l) (b ∷ s) ≡ false
same_text-undashed l b s e = ground (arith, e)

-- An attachment whose name is one line, and no line of which delimits a part, if it is inline.
abbrev pub IsPlain : Attachment → Type 0
IsPlain a =
    IsOneLine a.filename
    × (a.inline ≡ true
        → (lines_that_are delimiter a.content ≡ 0) × (lines_that_are closing a.content ≡ 0))

abbrev pub AllPlain : List (Bytes × Attachment) → Type 0
AllPlain [] = Unit
AllPlain ((n, a) ∷ range) = IsPlain a × AllPlain range

opens-AllClean :
    (range : List (Bytes × Attachment)) → AllPlain range → AllClean (same_text delimiter) range
opens-AllClean [] h = tt
opens-AllClean ((n, a) ∷ range) ((name, data_plain), hs) =
    ((name, λ e. (data_plain e).0), opens-AllClean range hs)

closes-AllClean :
    (range : List (Bytes × Attachment)) → AllPlain range → AllClean (same_text closing) range
closes-AllClean [] h = tt
closes-AllClean ((n, a) ∷ range) ((name, data_plain), hs) =
    ((name, λ e. (data_plain e).1), closes-AllClean range hs)

of_parts-opens :
    (range : List (Bytes × Attachment)) → of_parts (same_text delimiter) range ≡ 2 * length range
of_parts-opens [] = refl
of_parts-opens (x ∷ range) = omega (arith, of_parts-opens range)

of_range-opens :
    (range : List (Bytes × Attachment)) → of_range (same_text delimiter) range ≡ 2 * length range
of_range-opens [] = refl
of_range-opens (x ∷ range) = of_parts-opens (x ∷ range)

of_parts-closes : (range : List (Bytes × Attachment)) → of_parts (same_text closing) range ≡ 1
of_parts-closes [] = refl
of_parts-closes (x ∷ range) = omega (arith, of_parts-closes range)

of_range-closes :
    (range : List (Bytes × Attachment))
    → of_range (same_text closing) range ≡ (if ltb 0 (length range) then 1 else 0)
of_range-closes [] = refl
of_range-closes (x ∷ range) = ground (arith, of_parts-closes (x ∷ range))

-- In a mail whose headers are one line each, and whose body and inline attachments have no line that is
-- a delimiter or the closing one, twice as many lines delimit parts as it has attachments, and one
-- line closes the last, if there is any: in whichever order the map of attachments is walked.
pub bytes-delimiters :
    (join : List Bytes → Bytes → Bytes) (base64 : Bytes → Bytes) (date : Bytes)
    (range : List (Bytes × Attachment)) (m : Message)
    → IsMailText join base64
    → HasPlainHeaders m
    → IsOneLine date
    → lines_that_are delimiter m.body ≡ 0
    → lines_that_are closing m.body ≡ 0
    → length range ≡ length m.attachments
    → AllPlain range
    → (lines_that_are delimiter (bytes join base64 date range m) ≡ 2 * length m.attachments)
      × (lines_that_are closing (bytes join base64 date range m)
          ≡ (if ltb 0 (length m.attachments) then 1 else 0))
bytes-delimiters join base64 date range m law h d open_body close_body e plain = (
  scan-bytes law (same_text delimiter) refl (same_text-undashed (drop 1 delimiter)) date range m h d
        open_body e (opens-AllClean range plain)
      ∙ of_range-opens range
      ∙ ap (λ n. 2 * n) e,
  scan-bytes law (same_text closing) refl (same_text-undashed (drop 1 closing)) date range m h d
        close_body e (closes-AllClean range plain)
      ∙ of_range-closes range
      ∙ ap (λ n. if ltb 0 n then 1 else 0) e,
)
