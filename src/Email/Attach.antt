-- ===== src/Email/Attach.antt =====
-- gnet/gemail/email.go: which files a mail carries, and whom it goes to.
use mathlib.Core.List.{append_assoc, append-nil}
use gokits.Prelude.{
  ◌≡◌, refl, sym, ap, ◌∙◌, Bool, Option, none, some, List, [], ◌∷◌, ◌++◌, if◌then◌else◌,
}
use gokits.Prelude.Eq.{◌==◌}
use gokits.Prelude.Dict.{lookup, lookup-insert, IsDistinct, insert-IsDistinct}
use gokits.Prelude.Text.{Bytes, eq_of_text}
use gokits.Email.{Attachment, Message, attach, append_all, bytes, send}

-- A call of `Attach` or `Inline`: what the file holds, if it can be read, its name, and which of them.
abbrev pub Call : Type 0
Call = Option Bytes × Bytes × Bool

-- The calls in their order, whether or not they return an error.
abbrev pub attach_all : List Call → Message → Message
attach_all [] m = m
attach_all ((file, name, inline) ∷ calls) m = attach_all calls (attach file name inline m).1

-- The attachment of the last call that read a file of the name, or what there was before.
abbrev pub last_read : Bytes → List Call → Option Attachment → Option Attachment
last_read name [] before = before
last_read name ((none, n, inline) ∷ calls) before = last_read name calls before
last_read name ((some content, n, inline) ∷ calls) before =
    let a : Attachment = record { filename = n; content = content; inline = inline } in
    last_read name calls (if n == name then some a else before)

-- After any calls of Attach and Inline, a name has the attachment of the last call that read a file of
-- that name, or else what it had before, and no name has two attachments.
pub attach_all_lem :
    (name : Bytes) (calls : List Call) (m : Message)
    → IsDistinct m.attachments
    → (lookup name (attach_all calls m).attachments
        ≡ last_read name calls (lookup name m.attachments))
      × IsDistinct (attach_all calls m).attachments
attach_all_lem name [] m h = (refl, h)
attach_all_lem name ((none, n, inline) ∷ calls) m h = attach_all_lem name calls m h
attach_all_lem name ((some content, n, inline) ∷ calls) m h =
    let a : Attachment = record { filename = n; content = content; inline = inline } in
    let rest : (lookup name (attach_all calls (attach (some content) n inline m).1).attachments
          ≡ last_read name calls (lookup name (attach (some content) n inline m).1.attachments))
        × IsDistinct (attach_all calls (attach (some content) n inline m).1).attachments =
      attach_all_lem name calls (attach (some content) n inline m).1
        (insert-IsDistinct n a m.attachments h) in
    (rest.0 ∙ ap (last_read name calls) (lookup-insert n name a m.attachments), rest.1)

append_all_lem : (ss ts : List Bytes) → append_all ss ts ≡ ss ++ ts
append_all_lem ss [] = sym (append-nil ss)
append_all_lem ss (t ∷ ts) = append_all_lem (ss ++ (t ∷ [])) ts ∙ append_assoc ss (t ∷ []) ts

-- Send gives the mail to everyone in To, Cc and Bcc, in that order, and what it sends is what it would
-- send of the message without its Bcc.
pub send_lem :
    {R : Type 0} (join : List Bytes → Bytes → Bytes) (base64 : Bytes → Bytes)
    (mail : Bytes → List Bytes → Bytes → R) (date : Bytes) (range : List (Bytes × Attachment))
    (m : Message)
    → send join base64 mail date range m
      ≡ mail m.from (m.to ++ (m.cc ++ m.bcc)) (bytes join base64 date range (record m { bcc = [] }))
unfolding send bytes
send_lem join base64 mail date range m =
    ap (λ ss. mail m.from ss (bytes join base64 date range m))
      (append_all_lem (append_all m.to m.cc) m.bcc
        ∙ ap (λ ss. ss ++ m.bcc) (append_all_lem m.to m.cc)
        ∙ append_assoc m.to m.cc m.bcc)
