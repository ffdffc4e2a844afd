-- ===== src/Mail/Smtp.antt =====
-- backend/internal/mail/smtp.go: what is said to the mail server. net and net/smtp are a server that takes a
-- connection or not, offers STARTTLS or not and accepts each command or not, after what was said before;
-- a connection that times out accepts nothing more. Ports are not negative. An error is its sentinel.
pub mod Sealed
pub mod Conversation
pub mod Delivered
use mathlib.Core.Bool.{xor}
use project_management.Identity.Password.{decimal}
use project_management.Mail.{
  Message, Address, MailLibrary, MailError, MailResult, invalid_options, undelivered,
  sender_address, recipient, render,
}
use project_management.Prelude.Outcome.{ok, err, panic}
use project_management.Prelude.{
  ℕ, Bool, true, false, not, ◌&&◌, ◌||◌, Option, none, some, List, [], ◌∷◌, ◌++◌, Bytes, codes,
  index_byte, bytes_eq, ltb, ◌==◌, if◌then◌else◌,
}

pub record Options : Type 0 where
  pub host : Bytes
  pub port : ℕ
  pub from : Address
  pub username : Bytes
  pub password : Bytes
  pub allow_unencrypted : Bool

-- The `SMTP` struct; `auth` is a PlainAuth of a name and a password for the host.
pub record Sender : Type 0 where
  pub addr : Bytes
  pub host : Bytes
  pub from : Address
  pub auth : Option (Bytes × Bytes)
  pub allow_unencrypted : Bool

-- `net.JoinHostPort`.
unfoldable pub join_host_port : Bytes → Bytes → Bytes
join_host_port host port = elim (index_byte host b':') [
  | none ↦ host ++ (codes ":" ++ port)
  | some i ↦ codes "[" ++ (host ++ (codes "]:" ++ port))
]

-- `NewSMTP`, once the options are accepted.
abbrev pub sender_of : Options → Sender
sender_of opts = record {
  addr = join_host_port opts.host (decimal 5 opts.port);
  host = opts.host;
  from = opts.from;
  auth = if bytes_eq opts.username [] then none else some (opts.username, opts.password);
  allow_unencrypted = opts.allow_unencrypted;
}

-- The two checks of the credentials.
abbrev pub with_credentials : Options → MailResult Sender
with_credentials opts =
    if xor (bytes_eq opts.username []) (bytes_eq opts.password [])
    then err invalid_options
    else if not (bytes_eq opts.username []) && opts.allow_unencrypted
    then err invalid_options
    else ok (sender_of opts)

unfoldable pub new_smtp : MailLibrary → Options → MailResult Sender
new_smtp lib opts =
    if bytes_eq opts.host []
    then err invalid_options
    else if opts.port == 0 || ltb 65535 opts.port
    then err invalid_options
    else elim (sender_address lib opts.from) [
      | err e ↦ err invalid_options
      | panic ↦ panic
      | ok from ↦ with_credentials opts
    ]

-- What the client says, its arguments included.
pub data Command : Type 0 where
  greet data_begin data_end quit : Command
  start_tls : (host : Bytes) → Command
  login : (username password host : Bytes) → Command
  mail rcpt : Bytes → Command
  body : Bytes → Command

-- `said` is what was said before, the last command first.
pub record Server : Type 0 where
  pub dials : Bytes → Bool
  pub offers_start_tls : (said : List Command) → Bool
  pub accepts : (said : List Command) → Command → Bool

abbrev pub Talk : Type 0
Talk = List Command → MailResult (Unit {0}) × List Command

abbrev pub continue :
    Talk → MailResult (Unit {0}) × List Command → MailResult (Unit {0}) × List Command
continue k (ok u, said) = k said
continue k (err e, said) = (err e, said)
continue k (panic, said) = (panic, said)

infixl 5 ◌>>◌
abbrev pub ◌>>◌ : Talk → Talk → Talk
◌>>◌ m k said = continue k (m said)

abbrev pub silent : Talk
silent said = (ok tt, said)

module _ (server : Server) where
  unfoldable pub say : Command → Talk
  say c said = (if server.accepts said c then ok tt else err undelivered, c ∷ said)

  unfoldable pub secure : Sender → Talk
  secure s said =
      if server.offers_start_tls said
      then say (start_tls s.host) said
      else if s.allow_unencrypted
      then (ok tt, said)
      else (err undelivered, said)

  unfoldable pub sign_in_as : (host : Bytes) → Option (Bytes × Bytes) → Talk
  sign_in_as host none = silent
  sign_in_as host (some (username, password)) = say (login username password host)

  unfoldable pub sign_in : Sender → Talk
  unfolding sign_in_as
  sign_in s = sign_in_as s.host s.auth

  unfoldable pub deliver : Sender → (from to raw : Bytes) → Talk
  deliver s from to raw = do
    say greet
    secure s
    sign_in s
    say (mail from)
    say (rcpt to)
    say data_begin
    say (body raw)
    say data_end
    say quit

  -- `Send`, once the message is rendered.
  unfoldable pub send_raw : Sender → (from to raw : Bytes) → MailResult (Unit {0}) × List Command
  send_raw s from to raw =
      if server.dials s.addr then deliver s from to raw [] else (err undelivered, [])

  -- `Send`, of what was rendered and parsed, in this order.
  unfoldable pub send_parsed :
      Sender
      → (rendered : MailResult Bytes) → (to from : MailResult Address)
      → MailResult (Unit {0}) × List Command
  send_parsed s (err e) to from = (err e, [])
  send_parsed s panic to from = (panic, [])
  send_parsed s (ok raw) (err e) from = (err e, [])
  send_parsed s (ok raw) panic from = (panic, [])
  send_parsed s (ok raw) (ok receiver) (err e) = (err e, [])
  send_parsed s (ok raw) (ok receiver) panic = (panic, [])
  send_parsed s (ok raw) (ok receiver) (ok sender) = send_raw s sender.address receiver.address raw

  -- `Send`: the answer, and what was said.
  unfoldable pub send :
      MailLibrary
      → (date : Bytes) → Option Bytes
      → Sender
      → Message
      → MailResult (Unit {0}) × List Command
  send lib date random s m =
      send_parsed s (render lib date random s.from m) (recipient lib m.to)
        (sender_address lib s.from)
