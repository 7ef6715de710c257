-- ===== src/Email/Tests.antt =====
-- gnet/gemail/email.go: tests and examples.
use gokits.Prelude.{◌+◌, ◌/◌, ◌%◌, ◌≡◌, refl, true, false, none, some, List, [], ◌∷◌, ◌++◌, arith}
use gokits.Prelude.Dict.{lookup, IsDistinct}
use gokits.Prelude.Text.{Bytes, text, IsOneLine, append-IsOneLine, scan, eq_of_text}
use gokits.Email.{Attachment, Message, new_message, new_html_message, bytes, send}
use gokits.Email.Lines.{delimiter, closing, NotDashed, AllOneLine, IsMailText, HasPlainHeaders}
use gokits.Email.Delimiters.{lines_that_are, AllPlain, bytes-delimiters}
use gokits.Email.Attach.{Call, attach_all, attach_all_lem, send_lem}

abbrev join_texts : List Bytes → Bytes → Bytes
join_texts [] sep = []
join_texts (s ∷ []) sep = s
join_texts (s ∷ t ∷ ss) sep = s ++ (sep ++ join_texts (t ∷ ss) sep)

join_texts_line :
    (ss : List Bytes) (sep : Bytes) → AllOneLine ss → IsOneLine sep → IsOneLine (join_texts ss sep)
unfolding IsOneLine
join_texts_line [] sep h k = refl
join_texts_line (s ∷ []) sep h k = h.0
join_texts_line (s ∷ t ∷ ss) sep h k =
    append-IsOneLine s (sep ++ join_texts (t ∷ ss) sep) h.0
      (append-IsOneLine sep (join_texts (t ∷ ss) sep) k (join_texts_line (t ∷ ss) sep h.1 k))

-- Two letters for a byte.
abbrev letters : Bytes → Bytes
letters [] = []
letters (b ∷ s) = (65 + b / 16) ∷ ((65 + b % 16) ∷ letters s)

letters_line : (s : Bytes) → IsOneLine (letters s)
unfolding IsOneLine
letters_line [] = refl
letters_line (b ∷ s) = ground (arith, letters_line s)

letters_dash : (s : Bytes) → NotDashed (letters s)
letters_dash [] = tt
letters_dash (b ∷ s) = ground arith

join_texts-IsMailText : IsMailText join_texts letters
join_texts-IsMailText = record {
  join_line = join_texts_line;
  base64_line = letters_line;
  base64_dash = letters_dash;
}

abbrev first_file : Attachment
first_file = record { filename = text "a.txt"; content = text "x"; inline = false }

abbrev second_file : Attachment
second_file = record { filename = text "b.txt"; content = text "y\nz"; inline = true }

abbrev walk : List (Bytes × Attachment)
walk = (text "b.txt", second_file) ∷ ((text "a.txt", first_file) ∷ [])

abbrev mail : Message
mail = record (new_message (text "hello") (text "body\nmore")) {
  from = text "me@x";
  to = text "you@x" ∷ [];
  cc = text "c@x" ∷ (text "d@x" ∷ []);
  bcc = text "e@x" ∷ [];
  attachments = walk;
}

mail-HasPlainHeaders : HasPlainHeaders mail
unfolding IsOneLine
mail-HasPlainHeaders = record {
  from_line = refl;
  to_line = (refl, tt);
  cc_line = (refl, (refl, tt));
  subject_line = refl;
  type_line = refl;
}

now_line : IsOneLine (text "now")
unfolding IsOneLine
now_line = refl

walk-AllPlain : AllPlain walk
unfolding IsOneLine scan
walk-AllPlain = ((refl, λ e. (refl, refl)), ((refl, λ e. (refl, refl)), tt))

bytes-delimiters_example :
    (lines_that_are delimiter (bytes join_texts letters (text "now") walk mail) ≡ 4)
    × (lines_that_are closing (bytes join_texts letters (text "now") walk mail) ≡ 1)
unfolding scan
bytes-delimiters_example =
    bytes-delimiters join_texts letters (text "now") walk mail join_texts-IsMailText
      mail-HasPlainHeaders now_line refl refl refl walk-AllPlain

abbrev calls : List Call
calls =
    (some (text "old"), text "a.txt", false)
    ∷ ((none, text "b.txt", false) ∷ ((some (text "new"), text "a.txt", true) ∷ []))

attach_all_lem_example :
    (lookup (text "a.txt") (attach_all calls (new_html_message [] [])).attachments
      ≡ some (record { filename = text "a.txt"; content = text "new"; inline = true }))
    × IsDistinct (attach_all calls (new_html_message [] [])).attachments
unfolding IsDistinct
attach_all_lem_example = attach_all_lem (text "a.txt") calls (new_html_message [] []) tt

send_lem_example :
    send join_texts letters (λ from to body. to) (text "now") walk mail
    ≡ text "you@x" ∷ (text "c@x" ∷ (text "d@x" ∷ (text "e@x" ∷ [])))
send_lem_example = send_lem join_texts letters (λ from to body. to) (text "now") walk mail
