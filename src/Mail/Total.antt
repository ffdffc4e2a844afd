-- ===== src/Mail/Total.antt =====
-- Rendering a message ends in a message or in a refusal, and what it parsed on the way parses again.
use project_management.Mail.{
  Message, Address, MailLibrary, MailResult, invalid_message, index_control, no_control,
  split_address, message_id, parsed_sender, sender_address, recipient, max_subject_bytes,
  subject_header, has_text, render,
}
use project_management.Identity.Text.{trim_space}
use project_management.Prelude.Outcome.{ok, err, panic, ◌>>=◌, >>=-eq-ok}
use project_management.Prelude.{
  Option, [], Bytes, length, bytes_eq, ltb, ◌≡◌, inl, inr, Bool, true, false, if◌then◌else◌,
  Option-cases,
}

abbrev pub Returns : {A : Type 0} → MailResult A → Type 0
Returns panic = ⊥
Returns (ok a) = Unit
Returns (err e) = Unit

Returns-bind :
    {A B : Type 0} (m : MailResult A) (f : A → MailResult B)
    → Returns m
    → ((a : A) → Returns (f a))
    → Returns (m >>= f)
Returns-bind (ok a) f h k = k a
Returns-bind (err e) f h k = tt
Returns-bind panic f h k = h

Returns-if :
    {A : Type 0} (b : Bool) (x y : MailResult A)
    → Returns x
    → Returns y
    → Returns (if b then x else y)
Returns-if true x y hx hy = hx
Returns-if false x y hx hy = hy

no_control-Returns : (text : Bytes) → Returns (no_control text)
unfolding no_control
no_control-Returns text = elim (Option-cases (index_control text)) [
  | inl e ↦ rw (e, no_control) tt
  | inr (i, e) ↦ rw (e, no_control) tt
]

message_id-Returns : (random : Option Bytes) (sender : Bytes) → Returns (message_id random sender)
unfolding message_id
message_id-Returns random sender = elim (Option-cases (split_address sender)) [
  | inl e ↦ rw (e, message_id) tt
  | inr ((local, domain), e) ↦ elim (Option-cases random) [
    | inl r ↦ rw (e, r, message_id) tt
    | inr (bytes, r) ↦ rw (e, r, message_id) tt
  ]
]

module _ (lib : MailLibrary) where
  parsed_sender-Returns : (from : Address) → Returns (parsed_sender lib from)
  unfolding parsed_sender
  parsed_sender-Returns from = elim (Option-cases (lib.parse_address (lib.address_string from))) [
    | inl e ↦ rw (e, parsed_sender) tt
    | inr (parsed, e) ↦ elim (Option-cases (split_address parsed.address)) [
      | inl q ↦ rw (e, q, parsed_sender) tt
      | inr (parts, q) ↦ rw (e, q, parsed_sender) tt
    ]
  ]

  sender_address-Returns : (from : Address) → Returns (sender_address lib from)
  unfolding sender_address
  sender_address-Returns from =
      Returns-bind (no_control from.name) _ (no_control-Returns from.name) λ u.
        Returns-bind (no_control from.address) _ (no_control-Returns from.address)
          λ v. parsed_sender-Returns from

  recipient-Returns : (raw : Bytes) → Returns (recipient lib raw)
  unfolding recipient
  recipient-Returns raw = Returns-if (bytes_eq (trim_space raw) []) (err invalid_message) _ tt (
      Returns-bind (no_control raw) _ (no_control-Returns raw) λ u.
        elim (Option-cases (lib.parse_address raw)) [ inl e ↦ rw e tt | inr (parsed, e) ↦ rw e tt ])

  subject_header-Returns : (subject : Bytes) → Returns (subject_header lib subject)
  unfolding subject_header
  subject_header-Returns subject =
      Returns-if (bytes_eq (trim_space subject) []) (err invalid_message) _ tt (
        Returns-if (ltb max_subject_bytes (length subject)) (err invalid_message) _ tt
          (Returns-bind (no_control subject) _ (no_control-Returns subject) (λ u. tt)))

  pub render-Returns :
      (date : Bytes) (random : Option Bytes) (from : Address) (m : Message)
      → Returns (render lib date random from m)
  unfolding render has_text
  render-Returns date random from m =
      Returns-bind (sender_address lib from) _ (sender_address-Returns from) λ sender.
        Returns-bind (recipient lib m.to) _ (recipient-Returns m.to) λ to.
          Returns-bind (subject_header lib m.subject) _ (subject_header-Returns m.subject)
            λ subject.
              Returns-bind (has_text lib m.text) _
                (Returns-if (bytes_eq m.text []) (err invalid_message) _ tt tt)
                λ u.
                  Returns-bind (message_id random sender.address) _
                    (message_id-Returns random sender.address) (λ id. tt)

  -- What Render parsed, Send parses again.
  pub render-parsed :
      (date : Bytes) (random : Option Bytes) (from : Address) (m : Message) (raw : Bytes)
      → render lib date random from m ≡ ok raw
      → (sender to : Address) × (sender_address lib from ≡ ok sender) × (recipient lib m.to ≡ ok to)
  unfolding render
  render-parsed date random from m raw e =
      let (sender, sent_as, e1) = >>=-eq-ok (sender_address lib from) _ raw e in
      let (to, received, e2) = >>=-eq-ok (recipient lib m.to) _ raw e1 in
      (sender, to, sent_as, received)
