-- ===== src/Email.antt =====
-- gnet/gemail/email.go: a mail with attachments. What the code takes of other packages is an argument:
-- strings.Join, base64, the formatted time, the file that is read and filepath.Split. A Go map is
-- walked in any order, so the order is an argument too.
pub mod Lines
pub mod Delimiters
pub mod Attach
mod Tests
use gokits.Prelude.{
  ◌≡◌, Bool, true, false, Option, none, some, List, [], ◌∷◌, ◌++◌, length, ◌==◌, ltb, if◌then◌else◌,
}
use gokits.Prelude.Dict.{insert}
use gokits.Prelude.Text.{Bytes, text, eq_of_text}

pub record Attachment : Type 0 where
  pub filename : Bytes
  pub content : Bytes
  pub inline : Bool

pub record Message : Type 0 where
  pub from : Bytes
  pub to : List Bytes
  pub cc : List Bytes
  pub bcc : List Bytes
  pub subject : Bytes
  pub body : Bytes
  pub body_content_type : Bytes
  pub attachments : List (Bytes × Attachment)

-- `newMessage`, whose From, To, Cc and Bcc are empty until they are assigned.
abbrev pub new_with_type : Bytes → Bytes → Bytes → Message
new_with_type subject body kind = record {
  from = [];
  to = [];
  cc = [];
  bcc = [];
  subject = subject;
  body = body;
  body_content_type = kind;
  attachments = [];
}

abbrev pub new_message : Bytes → Bytes → Message
new_message subject body = new_with_type subject body (text "text/plain")

abbrev pub new_html_message : Bytes → Bytes → Message
new_html_message subject body = new_with_type subject body (text "text/html")

-- `attach`: `read` is what `ioutil.ReadFile` returned, none for an error, and `name` the last part of
-- `filepath.Split`. The answer is whether there was no error.
abbrev pub attach : Option Bytes → Bytes → Bool → Message → Bool × Message
attach none name inline m = (false, m)
attach (some content) name inline m =
    let a : Attachment = record { filename = name; content = content; inline = inline } in
    (true, record m { attachments = insert name a m.attachments })

-- A loop of `Tolist`.
abbrev pub append_all : List Bytes → List Bytes → List Bytes
append_all tolist [] = tolist
append_all tolist (s ∷ ss) = append_all (tolist ++ (s ∷ [])) ss

abbrev pub to_list : Message → List Bytes
to_list m = append_all (append_all m.to m.cc) m.bcc

abbrev pub boundary : Bytes
boundary = text "f46d043c813270fc6b04c2d223da"

-- The lines of a part that come before its data.
abbrev pub part_headers : Attachment → Bytes
part_headers a =
    if a.inline
    then text "Content-Type: message/rfc822\n"
      ++ (text "Content-Disposition: inline; filename=\"" ++ (a.filename ++ text "\"\n\n"))
    else text "Content-Type: application/octet-stream\n"
      ++ (text "Content-Transfer-Encoding: base64\n"
          ++ (text "Content-Disposition: attachment; filename=\"" ++ (a.filename ++ text "\"\n\n")))

abbrev pub headers : (List Bytes → Bytes → Bytes) → Bytes → Message → Bytes
headers join date m =
    text "From: "
    ++ (m.from
        ++ (text "\n"
            ++ (text "Date: "
                ++ (date
                    ++ (text "\n"
                        ++ (text "To: "
                            ++ (join m.to (text ",")
                                ++ (text "\n"
                                    ++ ((if ltb 0 (length m.cc)
                                          then text "Cc: " ++ (join m.cc (text ",") ++ text "\n")
                                          else [])
                                        ++ (text "Subject: "
                                            ++ (m.subject
                                                ++ (text "\n"
                                                    ++ text "MIME-Version: 1.0\n"))))))))))))

abbrev pub mixed : Message → Bytes
mixed m =
    if ltb 0 (length m.attachments)
    then text "Content-Type: multipart/mixed; boundary="
      ++ (boundary ++ (text "\n" ++ (text "--" ++ (boundary ++ text "\n"))))
    else []

abbrev pub body_part : Message → Bytes
body_part m =
    text "Content-Type: "
    ++ (m.body_content_type ++ (text "; charset=utf-8\n\n" ++ (m.body ++ text "\n")))

module _ (base64 : Bytes → Bytes) where
  -- The data of a part, as it is written.
  abbrev pub part_data : Attachment → Bytes
  part_data a = if a.inline then a.content else base64 a.content

  -- One round of the loop over the attachments.
  abbrev pub part : Attachment → Bytes
  part a =
      text "\n\n--"
      ++ (boundary ++ (text "\n" ++ (part_headers a ++ (part_data a ++ (text "\n--" ++ boundary)))))

  abbrev pub parts : List (Bytes × Attachment) → Bytes
  parts [] = []
  parts ((name, a) ∷ range) = part a ++ parts range

  -- The loop over the attachments, where there are any.
  abbrev pub attached : List (Bytes × Attachment) → Message → Bytes
  attached range m = if ltb 0 (length m.attachments) then parts range ++ text "--" else []

module _ (join : List Bytes → Bytes → Bytes) (base64 : Bytes → Bytes) where
  -- `bytes`, where `range` lists the attachments in the order of the walk.
  pub bytes : Bytes → List (Bytes × Attachment) → Message → Bytes
  bytes date range m = headers join date m ++ (mixed m ++ (body_part m ++ attached base64 range m))

  -- `Send`, where `mail` is `smtp.SendMail` at an address.
  pub send :
      {R : Type 0} (mail : Bytes → List Bytes → Bytes → R)
      → Bytes
      → List (Bytes × Attachment)
      → Message
      → R
  send mail date range m = mail m.from (to_list m) (bytes date range m)
