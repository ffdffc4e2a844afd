-- ===== src/Mail.antt =====
-- backend/internal/mail/mail.go: a message as it goes over the wire. net/mail's reading and writing of an
-- address, mime's encoding of a header and the quoted-printable writer are parameters, the formatted
-- time and the random bytes arguments. An error is its sentinel, and writing to a buffer does not fail.
pub mod Header
pub mod Rendering
pub mod Total
pub mod Smtp
pub mod Tests
use project_management.Identity.Text.{trim_space}
use project_management.Prelude.Outcome.{Outcome, ok, err, ◌>>=◌, ◌>>◌}
use project_management.Prelude.{
  ℕ, suc, ◌+◌, ◌/◌, ◌%◌, Bool, ◌||◌, Option, none, some, [], ◌∷◌, ◌++◌, Bytes, codes, length, take,
  drop, bytes_eq, ltb, ◌==◌, if◌then◌else◌,
}

-- The message's `To`, `Subject` and `Text`.
pub record Message : Type 0 where
  pub to : Bytes
  pub subject : Bytes
  pub text : Bytes

-- net/mail's `Address`.
pub record Address : Type 0 where
  pub name : Bytes
  pub address : Bytes

pub record MailLibrary : Type 0 where
  pub parse_address : Bytes → Option Address
  pub address_string : Address → Bytes
  pub q_encode : Bytes → Bytes
  pub quoted_printable : Bytes → Bytes

pub data MailError : Type 0 where
  invalid_message invalid_options undelivered random_unread : MailError

abbrev pub MailResult : Type 0 → Type 0
MailResult = Outcome MailError

abbrev pub max_subject_bytes : ℕ
max_subject_bytes = 200

-- The C0 set and DEL; each is one byte of UTF-8.
abbrev pub is_control : ℕ → Bool
is_control c = ltb c 0x20 || c == 0x7f

-- `strings.IndexFunc` of the control characters.
unfoldable pub index_control : Bytes → Option ℕ
index_control [] = none
index_control (c ∷ cs) =
    if is_control c then some 0 else elim (index_control cs) [ none ↦ none | some i ↦ some (suc i) ]

unfoldable pub no_control : Bytes → MailResult (Unit {0})
no_control text = elim (index_control text) [ none ↦ ok tt | some i ↦ err invalid_message ]

-- `strings.LastIndex`, of "@".
unfoldable pub last_at : Bytes → Option ℕ
last_at [] = none
last_at (c ∷ cs) = elim (last_at cs) [
  | some i ↦ some (suc i)
  | none ↦ if c == b'@' then some 0 else none
]

-- `split`, into the local part and the domain.
unfoldable pub split_address : Bytes → Option (Bytes × Bytes)
split_address address = elim (last_at address) [
  | none ↦ none
  | some at ↦
      if at == 0 || at + 1 == length address
      then none
      else some (take at address, drop (at + 1) address)
]

-- `hex.EncodeToString`.
abbrev hex_digit : ℕ → ℕ
hex_digit n = if ltb n 10 then b'0' + n else 87 + n

unfoldable pub hex_encode : Bytes → Bytes
hex_encode [] = []
hex_encode (b ∷ bs) = hex_digit (b / 16) ∷ hex_digit (b % 16) ∷ hex_encode bs

-- The outcome of reading 16 random bytes is an argument.
unfoldable pub message_id : Option Bytes → Bytes → MailResult Bytes
message_id random sender = elim (split_address sender) [
  | none ↦ err invalid_message
  | some (local, domain) ↦ elim random [
    | none ↦ err random_unread
    | some bytes ↦ ok (codes "<" ++ (hex_encode bytes ++ (codes "@" ++ (domain ++ codes ">"))))
  ]
]

abbrev pub crlf : Bytes
crlf = 13 ∷ 10 ∷ []

abbrev pub header : Bytes → Bytes → Bytes → Bytes
header name value rest = name ++ (codes ": " ++ (value ++ (crlf ++ rest)))

module _ (lib : MailLibrary) where
  unfoldable pub parsed_sender : Address → MailResult Address
  parsed_sender from = elim (lib.parse_address (lib.address_string from)) [
    | none ↦ err invalid_message
    | some parsed ↦ elim (split_address parsed.address) [
      | none ↦ err invalid_message
      | some parts ↦ ok parsed
    ]
  ]

  unfoldable pub sender_address : Address → MailResult Address
  unfolding parsed_sender
  sender_address from = do no_control from.name; no_control from.address; parsed_sender from

  unfoldable pub recipient : Bytes → MailResult Address
  recipient raw =
      if bytes_eq (trim_space raw) []
      then err invalid_message
      else no_control raw >>= λ u. elim (lib.parse_address raw) [
        | none ↦ err invalid_message
        | some parsed ↦ ok parsed
      ]

  unfoldable pub subject_header : Bytes → MailResult Bytes
  subject_header subject =
      if bytes_eq (trim_space subject) []
      then err invalid_message
      else if ltb max_subject_bytes (length subject)
      then err invalid_message
      else no_control subject >>= λ u. ok (lib.q_encode subject)

  -- The message once everything in it is accepted.
  unfoldable pub wire : (date from to subject id text : Bytes) → Bytes
  wire date from to subject id text = header (codes "Date") date (
      header (codes "From") from (
        header (codes "To") to (
          header (codes "Subject") subject (
            header (codes "Message-ID") id (
              header (codes "MIME-Version") (codes "1.0") (
                header (codes "Content-Type") (codes "text/plain; charset=\"utf-8\"") (
                  header (codes "Content-Transfer-Encoding") (codes "quoted-printable") (
                    header (codes "Auto-Submitted") (codes "auto-generated")
                      (crlf ++ lib.quoted_printable text)))))))))

  unfoldable pub has_text : Bytes → MailResult (Unit {0})
  has_text text = if bytes_eq text [] then err invalid_message else ok tt

  unfoldable pub render : (date : Bytes) → Option Bytes → Address → Message → MailResult Bytes
  unfolding has_text
  render date random from m = do
    sender ← sender_address from
    to ← recipient m.to
    subject ← subject_header m.subject
    has_text m.text
    id ← message_id random sender.address
    ok (wire date (lib.address_string sender) (lib.address_string to) subject id m.text)
