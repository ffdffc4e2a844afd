-- ===== src/Mail/Tests.antt =====
-- The theorems on mail at concrete messages. An address is its own text.
use mathlib.Core.Bool.{xor}
use mathlib.Core.Option.{some-injective}
use project_management.Identity.Text.{trim_space}
use project_management.Mail.Header.{Unbroken, Clean, Clean-Unbroken}
use project_management.Mail.Rendering.{Keeps, Rendered, render-Rendered}
use project_management.Mail.Smtp.Delivered.{Answered, send-Answered}
use project_management.Mail.Smtp.Sealed.{Sealed, send-Sealed}
use project_management.Mail.Smtp.{
  Options, Sender, Command, greet, data_begin, data_end, quit, start_tls, login, mail, rcpt, body,
  Server, join_host_port, new_smtp, say, secure, sign_in, sign_in_as, deliver, send_raw,
  send_parsed, send,
}
use project_management.Mail.{
  Message, Address, MailLibrary, invalid_message, undelivered, index_control, no_control, last_at,
  split_address, hex_encode, message_id, parsed_sender, sender_address, recipient, subject_header,
  wire, has_text, render,
}
use project_management.Identity.Password.{decimal}
use project_management.Prelude.Outcome.{ok, err}
use project_management.Prelude.{
  ◌≡◌, refl, subst, Bool, true, false, some, List, [], ◌∷◌, ◌++◌, Bytes, codes, replicate, bytes_eq,
  index_byte,
}

abbrev pub plain : MailLibrary
plain = record {
  parse_address = λ text. some (record { name = []; address = text });
  address_string = λ a. a.address;
  q_encode = λ text. text;
  quoted_printable = λ text. text;
}

unbroken_of :
    (text : Bytes) (a : Address)
    → Clean text
    → plain.parse_address text ≡ some a
    → Unbroken a.address × Unbroken (plain.address_string a)
unbroken_of text a clean e =
    let unbroken : Unbroken a.address =
      subst (λ (b : Address). Unbroken b.address) (some-injective _ _ e)
        (Clean-Unbroken text clean) in
    (unbroken, unbroken)

plain-Keeps : Keeps plain
plain-Keeps = record {
  parsed_unbroken = λ text a clean e. unbroken_of text a clean e;
  string_clean = λ a name address. address;
  encoded_unbroken = λ text clean. Clean-Unbroken text clean;
}

abbrev from : Address
from = record { name = []; address = codes "no-reply@x.y" }

abbrev pub message : Message
message = record { to = codes "a@b.c"; subject = codes "Reset"; text = codes "Hi" }

abbrev date : Bytes
date = codes "Thu"

abbrev raw : Bytes
raw =
    wire plain date from.address message.to message.subject
      (codes "<" ++ (replicate 32 0x30 ++ (codes "@" ++ (codes "x.y" ++ codes ">")))) message.text

render_runs : render plain date (some (replicate 16 0)) from message ≡ ok raw
unfolding render sender_address no_control index_control parsed_sender split_address last_at
    recipient bytes_eq trim_space subject_header has_text message_id hex_encode
render_runs = refl

render-Rendered_example : Rendered plain plain-Keeps date (some (replicate 16 0)) from message raw
render-Rendered_example =
    render-Rendered plain plain-Keeps date (some (replicate 16 0)) from message raw
      (Clean-Unbroken date ((refl, (refl, (refl, tt))))) render_runs

-- A subject that would start a header of its own.
injected :
    render plain date
      (some (replicate 16 0))
      from
      (record message { subject = codes "Reset" ++ (13 ∷ 10 ∷ codes "Bcc: e@v.l") })
    ≡ err invalid_message
unfolding render sender_address no_control index_control parsed_sender split_address last_at
    recipient bytes_eq trim_space subject_header
injected = refl

abbrev options : Options
options = record {
  host = codes "mx";
  port = 587;
  from = from;
  username = codes "u";
  password = codes "p";
  allow_unencrypted = false;
}

abbrev sender : Sender
sender = record {
  addr = codes "mx:587";
  host = codes "mx";
  from = from;
  auth = some (codes "u", codes "p");
  allow_unencrypted = false;
}

-- It offers STARTTLS and accepts everything.
abbrev server : Server
server = record { dials = λ addr. true; offers_start_tls = λ said. true; accepts = λ said c. true }

new_smtp_runs : new_smtp plain options ≡ ok sender
unfolding new_smtp xor bytes_eq join_host_port index_byte decimal sender_address no_control
    index_control parsed_sender split_address last_at
new_smtp_runs = refl

send-Sealed_example :
    Sealed server sender (send server plain date (some (replicate 16 0)) sender message).1
send-Sealed_example =
    send-Sealed plain options sender server date (some (replicate 16 0)) message new_smtp_runs

send-Answered_example :
    Answered server sender plain date
      (some (replicate 16 0))
      message
      (send server plain date (some (replicate 16 0)) sender message)
send-Answered_example = send-Answered server sender plain date (some (replicate 16 0)) message

abbrev not_quit : Command → Bool
not_quit quit = false
not_quit c = true

-- The conversation until QUIT, the last command first.
abbrev said_to_server : List Command
said_to_server =
    data_end
    ∷ body raw
    ∷ data_begin
    ∷ rcpt message.to
    ∷ mail from.address
    ∷ login (codes "u") (codes "p") (codes "mx")
    ∷ start_tls (codes "mx")
    ∷ greet
    ∷ []

-- It accepts everything but QUIT.
abbrev hangs_up : Server
hangs_up = record server { accepts = λ said c. not_quit c }

-- The server accepted the end of the body, and Send answers ErrUndelivered.
quit_refused :
    send hangs_up plain date (some (replicate 16 0)) sender message
    ≡ (err undelivered, quit ∷ said_to_server)
unfolding send send_parsed send_raw deliver say secure sign_in sign_in_as render sender_address
    no_control index_control parsed_sender split_address last_at recipient bytes_eq trim_space
    subject_header has_text message_id hex_encode
quit_refused = refl
