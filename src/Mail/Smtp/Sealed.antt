-- ===== src/Mail/Smtp/Sealed.antt =====
-- What is said before the connection is encrypted.
use project_management.Mail.Smtp.{
  Options, Sender, with_credentials, new_smtp, Command, greet, data_begin, data_end, quit,
  start_tls, login, mail, rcpt, body, Server, Talk, continue, ◌>>◌, say, secure, sign_in_as,
  sign_in, deliver, send_raw, send_parsed, send,
}
use project_management.Mail.{
  Message, Address, MailLibrary, MailResult, invalid_options, sender_address,
}
use project_management.Prelude.Outcome.{ok, err, panic}
use project_management.Prelude.{
  ltb, ◌==◌, ◌||◌, true, false, Option, none, some, List, [], ◌∷◌, Bytes, bytes_eq, ◌≡◌, refl, ◌⊎◌,
  inl, inr, arith, Bool-cases,
}

module _ (server : Server) (s : Sender) where
  -- STARTTLS was said, and the server accepted it.
  abbrev pub Secured : List Command → Type 0
  Secured [] = ⊥
  Secured (c ∷ said) = ((c ≡ start_tls s.host) × (server.accepts said c ≡ true)) ⊎ Secured said

  -- What has to come before a command.
  abbrev pub Allowed : Command → List Command → Type 0
  Allowed greet said = Unit
  Allowed (start_tls host) said = Unit
  Allowed (login username password host) said = Secured said
  Allowed c said = (s.allow_unencrypted ≡ true) ⊎ Secured said

  abbrev pub Sealed : List Command → Type 0
  Sealed [] = Unit
  Sealed (c ∷ said) = Allowed c said × Sealed said

  -- Credentials are there only if the connection has to be encrypted.
  abbrev Guarded : Type 0
  Guarded = (s.auth ≡ none) ⊎ (s.allow_unencrypted ≡ false)

  -- After the greeting and STARTTLS: what is still to come may be said.
  abbrev Open : List Command → Type 0
  Open said = Sealed said × (Secured said ⊎ (s.allow_unencrypted ≡ true))

  -- A part of the conversation from there on.
  abbrev Keeps : Talk → Type 0
  Keeps k =
      (said : List Command) → Open said → Sealed (k said).1 × ((k said).0 ≡ ok tt → Open (k said).1)

  Sealed-continue :
      (k : Talk) (r : MailResult (Unit {0}) × List Command)
      → Sealed r.1
      → (r.0 ≡ ok tt → Open r.1)
      → Keeps k
      → Sealed (continue k r).1 × ((continue k r).0 ≡ ok tt → Open (continue k r).1)
  Sealed-continue k (ok u, said) h after f = f said (after refl)
  Sealed-continue k (err e, said) h after f = (h, λ q. cc)
  Sealed-continue k (panic, said) h after f = (h, λ q. cc)

  Keeps-then : (m k : Talk) → Keeps m → Keeps k → Keeps (m >> k)
  Keeps-then m k f g said h =
      let (sealed, after) = f said h in Sealed-continue k (m said) sealed after g

  say-Open :
      (c : Command) (said : List Command)
      → Allowed c said
      → Open said
      → Sealed (say server c said).1 × ((say server c said).0 ≡ ok tt → Open (say server c said).1)
  unfolding say
  say-Open c said allowed (sealed, inl secured) =
      ((allowed, sealed), λ q. ((allowed, sealed), inl (inr secured)))
  say-Open c said allowed (sealed, inr free) =
      ((allowed, sealed), λ q. ((allowed, sealed), inr free))

  either : {A B : Type 0} → A ⊎ B → B ⊎ A
  either (inl a) = inr a
  either (inr b) = inl b

  say-Keeps :
      (c : Command)
      → ((said : List Command) → (s.allow_unencrypted ≡ true) ⊎ Secured said → Allowed c said)
      → Keeps (say server c)
  say-Keeps c allowed said h = say-Open c said (allowed said (either h.1)) h

  sealed_of :
      (said : List Command)
      → s.allow_unencrypted ≡ false
      → Secured said ⊎ (s.allow_unencrypted ≡ true)
      → Secured said
  sealed_of said encrypted (inl secured) = secured
  sealed_of said encrypted (inr free) = cc

  encrypted_of : Guarded → (a : Bytes × Bytes) → s.auth ≡ some a → s.allow_unencrypted ≡ false
  encrypted_of (inl nobody) a e = cc
  encrypted_of (inr encrypted) a e = encrypted

  sign_in-Keeps : Guarded → Keeps (sign_in server s)
  unfolding sign_in
  sign_in-Keeps guarded said h = go s.auth refl
    where
      go :
          (auth : Option (Bytes × Bytes))
          → s.auth ≡ auth
          → Sealed (sign_in_as server s.host auth said).1
            × ((sign_in_as server s.host auth said).0 ≡ ok tt
                → Open (sign_in_as server s.host auth said).1)
      go none e = (h.0, λ q. h)
      go (some (username, password)) e =
          say-Open (login username password s.host) said
            (sealed_of said (encrypted_of guarded (username, password) e) h.1) h

  accepted :
      (c : Command) (said : List Command)
      → (say server c said).0 ≡ ok tt
      → server.accepts said c ≡ true
  unfolding say
  accepted c said q = ground arith

  secure-Open :
      (said : List Command)
      → Sealed said
      → Sealed (secure server s said).1
        × ((secure server s said).0 ≡ ok tt → Open (secure server s said).1)
  unfolding secure say
  secure-Open said h = elim (Bool-cases (server.offers_start_tls said)) [
    | inl offered ↦
        rw offered ((tt, h), λ q. ((tt, h), inl (inl (refl, accepted (start_tls s.host) said q))))
    | inr silent_on_it ↦ elim (Bool-cases s.allow_unencrypted) [
      | inl free ↦ simp (silent_on_it, free) (h, λ q. (h, inr refl))
      | inr encrypted ↦ simp (silent_on_it, encrypted) (h, λ q. absurd (cc))
    ]
  ]

  Sealed-first :
      (r : MailResult (Unit {0}) × List Command)
      → Sealed r.1
      → (k : Talk) → ((said : List Command) → Sealed said → Sealed (k said).1)
      → Sealed (continue k r).1
  Sealed-first (ok u, said) h k f = f said h
  Sealed-first (err e, said) h k f = h
  Sealed-first (panic, said) h k f = h

  deliver-Sealed : Guarded → (from to raw : Bytes) → Sealed (deliver server s from to raw []).1
  unfolding deliver say
  deliver-Sealed guarded from to raw =
      Sealed-first (say server greet []) (tt, tt)
        (secure server s
          >> (sign_in server s
              >> (say server (mail from)
                  >> (say server (rcpt to)
                      >> (say server data_begin
                          >> (say server (body raw)
                              >> (say server data_end >> say server quit)))))))
        λ said h.
          (Sealed-continue _ (secure server s said) (secure-Open said h).0 (secure-Open said h).1 (
            Keeps-then _ _ (sign_in-Keeps guarded) (
              Keeps-then _ _ (say-Keeps (mail from) (λ said h. h)) (
                Keeps-then _ _ (say-Keeps (rcpt to) (λ said h. h)) (
                  Keeps-then _ _ (say-Keeps data_begin (λ said h. h)) (
                    Keeps-then _ _ (say-Keeps (body raw) (λ said h. h)) (
                      Keeps-then _ _ (say-Keeps data_end (λ said h. h))
                        (say-Keeps quit (λ said h. h))))))))).0

  send_raw-Sealed : Guarded → (from to raw : Bytes) → Sealed (send_raw server s from to raw).1
  unfolding send_raw
  send_raw-Sealed guarded from to raw = elim (Bool-cases (server.dials s.addr)) [
    | inl up ↦ rw up (deliver-Sealed guarded from to raw)
    | inr down ↦ rw down tt
  ]

  send_parsed-Sealed :
      Guarded
      → (raw : MailResult Bytes) (to from : MailResult Address)
      → Sealed (send_parsed server s raw to from).1
  unfolding send_parsed
  send_parsed-Sealed guarded (err e) to from = tt
  send_parsed-Sealed guarded panic to from = tt
  send_parsed-Sealed guarded (ok raw) (err e) from = tt
  send_parsed-Sealed guarded (ok raw) panic from = tt
  send_parsed-Sealed guarded (ok raw) (ok receiver) (err e) = tt
  send_parsed-Sealed guarded (ok raw) (ok receiver) panic = tt
  send_parsed-Sealed guarded (ok raw) (ok receiver) (ok sender) =
      send_raw-Sealed guarded sender.address receiver.address raw

with_credentials-Guarded :
    (opts : Options) (s : Sender)
    → with_credentials opts ≡ ok s
    → (s.auth ≡ none) ⊎ (s.allow_unencrypted ≡ false)
with_credentials-Guarded opts s e = elim (Bool-cases (bytes_eq opts.username [])) [
  | inl nobody ↦ inl (ground arith)
  | inr somebody ↦ inr (ground arith)
]

-- NewSMTP ends in the check of the credentials.
pub new_smtp-with :
    (lib : MailLibrary) (opts : Options) (s : Sender)
    → new_smtp lib opts ≡ ok s
    → with_credentials opts ≡ ok s
unfolding new_smtp
new_smtp-with lib opts s e = elim (Bool-cases (bytes_eq opts.host [])) [
  | inl hostless ↦ absurd (ground arith)
  | inr hosted ↦ elim (Bool-cases (opts.port == 0 || ltb 65535 opts.port)) [
    | inl out ↦ absurd (ground arith)
    | inr port ↦ with_from (sender_address lib opts.from) (rw (hosted, port) at e)
  ]
]
  where
    with_from :
        (from : MailResult Address)
        → ◌≡◌ {A = MailResult Sender}
            (elim from [
              | err e ↦ err invalid_options
              | panic ↦ panic
              | ok f ↦ with_credentials opts
            ])
            (ok s)
        → with_credentials opts ≡ ok s
    with_from (err e) f = absurd (cc)
    with_from panic f = absurd (cc)
    with_from (ok from) f = f

-- Whatever the server offers and accepts, a sender that NewSMTP returned says its credentials only
-- after a STARTTLS that was accepted, and so all else but the greeting and STARTTLS itself, unless the
-- options allow an unencrypted connection.
pub send-Sealed :
    (lib : MailLibrary) (opts : Options) (s : Sender) (server : Server) (date : Bytes)
    (random : Option Bytes) (m : Message)
    → new_smtp lib opts ≡ ok s
    → Sealed server s (send server lib date random s m).1
unfolding send
send-Sealed lib opts s server date random m e =
    send_parsed-Sealed server s (with_credentials-Guarded opts s (new_smtp-with lib opts s e)) _ _ _
