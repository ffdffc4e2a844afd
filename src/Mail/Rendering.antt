-- ===== src/Mail/Rendering.antt =====
-- What a reader finds in a message that `Render` wrote.
use project_management.Mail.Header.{
  NoBreak, with_line, Unbroken, Clean, read_block, read_block-line, Clean-Unbroken,
  no_control-Clean, message_id-Unbroken,
}
use project_management.Mail.{
  Message, Address, MailLibrary, MailResult, no_control, index_control, message_id, crlf, header,
  max_subject_bytes, invalid_message, parsed_sender, sender_address, recipient, subject_header,
  wire, has_text, render,
}
use mathlib.Core.List.{append_assoc}
use project_management.Identity.Text.{trim_space}
use project_management.Prelude.Outcome.{ok, err, >>=-eq-ok}
use project_management.Prelude.{
  ℕ, Option, none, some, List, [], ◌∷◌, ◌++◌, Bytes, codes, length, All-append, ◌≡◌, refl, ap,
  subst, sym, ◌∙◌, arith, bytes_eq, ltb, Bool-cases, inl, inr,
}

-- What is relied on of net/mail and mime: an address of a text with no control character has no line
-- break, read or written; what is written of a clean address is clean, and what Q-encoding makes of a
-- clean text has no line break.
pub record Keeps (lib : MailLibrary) : Type 0 where
  pub parsed_unbroken :
      (text : Bytes) (a : Address)
      → Clean text
      → lib.parse_address text ≡ some a
      → Unbroken a.address × Unbroken (lib.address_string a)
  pub string_clean : (a : Address) → Clean a.name → Clean a.address → Clean (lib.address_string a)
  pub encoded_unbroken : (text : Bytes) → Clean text → Unbroken (lib.q_encode text)

plain : (text : Bytes) → no_control text ≡ ok tt → Unbroken text
plain text e = Clean-Unbroken text (no_control-Clean text e)

-- One header line, of a name and a value with no line break.
read_header :
    (c : ℕ) (name value rest : Bytes)
    → Unbroken (c ∷ name)
    → Unbroken value
    → read_block [] (header (c ∷ name) value rest)
      ≡ with_line ((c ∷ name) ++ (codes ": " ++ value)) (read_block [] rest)
read_header c name value rest hn hv =
    ap (read_block []) (sym (append_assoc (c ∷ name) (codes ": " ++ value) (crlf ++ rest)))
    ∙ read_block-line [] ((c ∷ name) ++ (codes ": " ++ value)) rest (
        All-append NoBreak (c ∷ name) (codes ": " ++ value) hn
          ((λ k. omega arith, λ k. omega arith), ((λ k. omega arith, λ k. omega arith), hv)))

-- The header lines that a reader finds.
abbrev pub block : (date from to subject id : Bytes) → List Bytes
block date from to subject id =
    (codes "Date: " ++ date)
    ∷ (codes "From: " ++ from)
    ∷ (codes "To: " ++ to)
    ∷ (codes "Subject: " ++ subject)
    ∷ (codes "Message-ID: " ++ id)
    ∷ codes "MIME-Version: 1.0"
    ∷ codes "Content-Type: text/plain; charset=\"utf-8\""
    ∷ codes "Content-Transfer-Encoding: quoted-printable"
    ∷ codes "Auto-Submitted: auto-generated"
    ∷ []

-- The four lines that are the same in every message compute.
fixed-block :
    (body : Bytes)
    → read_block [] (
        header (codes "MIME-Version") (codes "1.0") (
          header (codes "Content-Type") (codes "text/plain; charset=\"utf-8\"") (
            header
              (codes "Content-Transfer-Encoding")
              (codes "quoted-printable")
              (header (codes "Auto-Submitted") (codes "auto-generated") (crlf ++ body)))))
      ≡ some (
        codes "MIME-Version: 1.0"
            ∷ codes "Content-Type: text/plain; charset=\"utf-8\""
            ∷ codes "Content-Transfer-Encoding: quoted-printable"
            ∷ codes "Auto-Submitted: auto-generated"
            ∷ [],
        body,
      )
unfolding read_block
fixed-block body = refl

ok-injective : {a b : Bytes} → ◌≡◌ {A = MailResult Bytes} (ok a) (ok b) → a ≡ b
ok-injective e = cc

module _ (lib : MailLibrary) (keeps : Keeps lib) where
  parsed_sender-parse :
      (from sender : Address)
      → parsed_sender lib from ≡ ok sender
      → lib.parse_address (lib.address_string from) ≡ some sender
  unfolding parsed_sender
  parsed_sender-parse from sender e = ground arith

  sender_address-Clean :
      (from sender : Address)
      → sender_address lib from ≡ ok sender
      → Unbroken sender.address × Unbroken (lib.address_string sender)
  unfolding sender_address parsed_sender
  sender_address-Clean from sender e =
      let (u, named, f) = >>=-eq-ok (no_control from.name) _ sender e in
      let (v, addressed, g) = >>=-eq-ok (no_control from.address) _ sender f in
      keeps.parsed_unbroken (lib.address_string from) sender
        (keeps.string_clean from (no_control-Clean from.name named)
          (no_control-Clean from.address addressed))
        (parsed_sender-parse from sender g)

  recipient-Clean :
      (raw : Bytes) (to : Address)
      → recipient lib raw ≡ ok to
      → Clean raw × (lib.parse_address raw ≡ some to)
  unfolding recipient
  recipient-Clean raw to e = elim (Bool-cases (bytes_eq (trim_space raw) [])) [
    | inl blank ↦ absurd (ground arith)
    | inr filled ↦
        let (u, clean, f) =
          >>=-eq-ok (no_control raw)
            (λ u. elim (lib.parse_address raw) [ none ↦ err invalid_message | some p ↦ ok p ]) to
            (rw filled at e) in
        (no_control-Clean raw clean, ground arith)
  ]

  subject_header-Clean :
      (subject value : Bytes)
      → subject_header lib subject ≡ ok value
      → Clean subject × (lib.q_encode subject ≡ value)
  unfolding subject_header
  subject_header-Clean subject value e = elim (Bool-cases (bytes_eq (trim_space subject) [])) [
    | inl blank ↦ absurd (ground arith)
    | inr filled ↦ elim (Bool-cases (ltb max_subject_bytes (length subject))) [
      | inl long ↦ absurd (ground arith)
      | inr short ↦
          let (u, clean, f) =
            >>=-eq-ok (no_control subject) (λ u. ok (lib.q_encode subject)) value
              (rw (filled, short) at e) in
          (no_control-Clean subject clean, cc)
    ]
  ]

  wire-block :
      (date from to subject id text : Bytes)
      → Unbroken date
      → Unbroken from
      → Unbroken to
      → Unbroken subject
      → Unbroken id
      → read_block [] (wire lib date from to subject id text)
        ≡ some (block date from to subject id, lib.quoted_printable text)
  unfolding wire no_control index_control
  wire-block date from to subject id text hd hf ht hs hi =
      read_header b'D' (codes "ate") date _ (plain (codes "Date") refl) hd
      ∙ ap (with_line (codes "Date: " ++ date)) (
          read_header b'F' (codes "rom") from _ (plain (codes "From") refl) hf
          ∙ ap (with_line (codes "From: " ++ from)) (
              read_header b'T' (codes "o") to _ (plain (codes "To") refl) ht
              ∙ ap (with_line (codes "To: " ++ to)) (
                  read_header b'S' (codes "ubject") subject _ (plain (codes "Subject") refl) hs
                  ∙ ap (with_line (codes "Subject: " ++ subject)) (
                      read_header b'M' (codes "essage-ID") id _ (plain (codes "Message-ID") refl) hi
                      ∙ ap (with_line (codes "Message-ID: " ++ id))
                          (fixed-block (lib.quoted_printable text))))))

  pub record Rendered (date : Bytes) (random : Option Bytes) (from : Address) (m : Message)
      (bytes : Bytes) : Type 0 where
    pub sender : Address
    pub receiver : Address
    pub id : Bytes
    pub sent_as : sender_address lib from ≡ ok sender
    pub sent_to : lib.parse_address m.to ≡ some receiver
    pub named : message_id random sender.address ≡ ok id
    pub address_clean : Clean m.to
    pub subject_clean : Clean m.subject
    pub read :
        read_block [] bytes
        ≡ some (
          block date
              (lib.address_string sender)
              (lib.address_string receiver)
              (lib.q_encode m.subject)
              id,
          lib.quoted_printable m.text,
        )

  -- A message that Render accepts is read back as nine header lines and the encoded text, whatever its
  -- address and its subject hold: the sender and the receiver as they were parsed, the encoded subject
  -- and an id in the domain of the sender. Neither the address nor the subject has a control character.
  pub render-Rendered :
      (date : Bytes) (random : Option Bytes) (from : Address) (m : Message) (bytes : Bytes)
      → Unbroken date
      → render lib date random from m ≡ ok bytes
      → Rendered date random from m bytes
  unfolding render
  render-Rendered date random from m bytes hd e =
      let (sender, sent_as, e1) = >>=-eq-ok (sender_address lib from) _ bytes e in
      let (to, received, e2) = >>=-eq-ok (recipient lib m.to) _ bytes e1 in
      let (subject, encoded, e3) = >>=-eq-ok (subject_header lib m.subject) _ bytes e2 in
      let (u, filled, e4) = >>=-eq-ok (has_text lib m.text) _ bytes e3 in
      let (id, named, e5) = >>=-eq-ok (message_id random sender.address) _ bytes e4 in
      let (address_clean, sent_to) = recipient-Clean m.to to received in
      let (subject_clean, q) = subject_header-Clean m.subject subject encoded in
      let (sender_unbroken, from_unbroken) = sender_address-Clean from sender sent_as in
      record {
        sender = sender;
        receiver = to;
        id = id;
        sent_as = sent_as;
        sent_to = sent_to;
        named = named;
        address_clean = address_clean;
        subject_clean = subject_clean;
        read =
            ap (read_block []) (sym (ok-injective e5))
            ∙ wire-block date (lib.address_string sender) (lib.address_string to) subject id m.text
                hd from_unbroken (keeps.parsed_unbroken m.to to address_clean sent_to).1
                (subst Unbroken q (keeps.encoded_unbroken m.subject subject_clean))
                (message_id-Unbroken random sender.address id sender_unbroken named)
            ∙ rw q refl;
      }
