-- ===== src/Mail/Smtp/Delivered.antt =====
-- What `Send` answers, against what was said to the server.
use project_management.Mail.Smtp.{
  Sender, Command, greet, data_begin, data_end, quit, start_tls, login, mail, rcpt, body, Server,
  Talk, continue, ◌>>◌, say, secure, sign_in_as, sign_in, deliver, send_raw, send_parsed, send,
}
use project_management.Mail.Smtp.Conversation.{Accepted, encrypted, dialogue, deliver-Says}
use project_management.Mail.Total.{Returns, render-Returns, render-parsed}
use project_management.Mail.{
  Message, Address, MailLibrary, MailResult, undelivered, sender_address, recipient, render,
}
use project_management.Prelude.Outcome.{ok, err, panic}
use project_management.Prelude.{
  Bool, true, false, Option, none, some, List, [], ◌∷◌, ◌++◌, Bytes, ◌≡◌, refl, ◌⊎◌, inl, inr,
  if◌then◌else◌, Bool-cases,
}

module _ (server : Server) (s : Sender) where
  -- The last command, and only this one, was refused.
  abbrev LastRefused : List Command → Type 0
  LastRefused [] = ⊥
  LastRefused (c ∷ said) = (server.accepts said c ≡ false) × Accepted server s said

  -- What a conversation breaks off at: a command that is refused, or that STARTTLS is not offered.
  abbrev pub Broken : List Command → Type 0
  Broken said =
      LastRefused said
      ⊎ ((server.offers_start_tls said ≡ false)
          × (s.allow_unencrypted ≡ false)
          × Accepted server s said)

  -- How a part ends.
  abbrev Ends : MailResult (Unit {0}) × List Command → Type 0
  Ends (ok u, said) = Accepted server s said
  Ends (err e, said) = (e ≡ undelivered) × Broken said
  Ends (panic, said) = ⊥

  abbrev IsPart : Talk → Type 0
  IsPart k = (said : List Command) → Accepted server s said → Ends (k said)

  continue-Ends :
      (k : Talk) (r : MailResult (Unit {0}) × List Command)
      → Ends r
      → IsPart k
      → Ends (continue k r)
  continue-Ends k (ok u, said) h f = f said h
  continue-Ends k (err e, said) h f = h
  continue-Ends k (panic, said) h f = h

  then-IsPart : (m k : Talk) → IsPart m → IsPart k → IsPart (m >> k)
  then-IsPart m k f g said h = continue-Ends k (m said) (f said h) g

  say-IsPart : (c : Command) → IsPart (say server c)
  unfolding say
  say-IsPart c said h = go (server.accepts said c) refl
    where
      go :
          (b : Bool)
          → server.accepts said c ≡ b
          → Ends (if b then ok tt else err undelivered, c ∷ said)
      go true e = (e, h)
      go false e = (refl, inl (e, h))

  sign_in-IsPart : IsPart (sign_in server s)
  unfolding sign_in
  sign_in-IsPart = go s.auth
    where
      go : (auth : Option (Bytes × Bytes)) → IsPart (sign_in_as server s.host auth)
      go none said h = h
      go (some (username, password)) said h = say-IsPart (login username password s.host) said h

  secure-IsPart : IsPart (secure server s)
  unfolding secure
  secure-IsPart said h = elim (Bool-cases (server.offers_start_tls said)) [
    | inl offered ↦ simp offered (say-IsPart (start_tls s.host) said h)
    | inr silent_on_it ↦ elim (Bool-cases s.allow_unencrypted) [
      | inl free ↦ simp (silent_on_it, free) h
      | inr sealed ↦ simp (silent_on_it, sealed) (refl, inr (refl, refl, h))
    ]
  ]

  deliver-IsPart : (from to raw : Bytes) → IsPart (deliver server s from to raw)
  unfolding deliver
  deliver-IsPart from to raw = then-IsPart _ _ (say-IsPart greet) (
      then-IsPart _ _ secure-IsPart (
        then-IsPart _ _ sign_in-IsPart (
          then-IsPart _ _ (say-IsPart (mail from)) (
            then-IsPart _ _ (say-IsPart (rcpt to)) (
              then-IsPart _ _ (say-IsPart data_begin) (
                then-IsPart _ _ (say-IsPart (body raw))
                  (then-IsPart _ _ (say-IsPart data_end) (say-IsPart quit))))))))

  -- Nothing was said since nobody answered, or the conversation broke off.
  abbrev pub Unfinished : List Command → Type 0
  Unfinished said = ((server.dials s.addr ≡ false) × (said ≡ [])) ⊎ Broken said

  -- The answer of `send_raw`.
  abbrev Sent : (from to raw : Bytes) → MailResult (Unit {0}) × List Command → Type 0
  Sent from to raw (ok u, said) =
      (said ≡ dialogue server s from to raw ++ (encrypted server s ++ greet ∷ []))
      × Accepted server s said
  Sent from to raw (err e, said) = (e ≡ undelivered) × Unfinished said
  Sent from to raw (panic, said) = ⊥

  send_raw-Sent : (from to raw : Bytes) → Sent from to raw (send_raw server s from to raw)
  unfolding send_raw
  send_raw-Sent from to raw = elim (Bool-cases (server.dials s.addr)) [
    | inl up ↦ simp up (
        go (deliver server s from to raw []) (deliver-IsPart from to raw [] tt)
          (deliver-Says server s from to raw))
    | inr down ↦ simp down (refl, inl (refl, refl))
  ]
    where
      go :
          (r : MailResult (Unit {0}) × List Command)
          → Ends r
          → (r.0 ≡ ok tt
              → (r.1 ≡ dialogue server s from to raw ++ (encrypted server s ++ greet ∷ []))
                × Accepted server s r.1)
          → Sent from to raw r
      go (ok u, said) f p = p refl
      go (err e, said) (same, broken) p = (same, inr broken)
      go (panic, said) f p = f

  -- The answer of `Send`: the whole conversation, all of it accepted; a message that was refused before
  -- anything was said; or a conversation that was not finished.
  abbrev pub Answered :
      MailLibrary
      → (date : Bytes) → Option Bytes
      → Message
      → MailResult (Unit {0}) × List Command
      → Type 0
  Answered lib date random m (ok u, said) =
      (raw : Bytes) × (from to : Address) × (render lib date random s.from m ≡ ok raw)
      × (sender_address lib s.from ≡ ok from)
      × (recipient lib m.to ≡ ok to)
      × (said ≡ dialogue server s from.address to.address raw ++ (encrypted server s ++ greet ∷ []))
      × Accepted server s said
  Answered lib date random m (err e, said) =
      ((render lib date random s.from m ≡ err e) × (said ≡ []))
      ⊎ ((raw : Bytes) × (render lib date random s.from m ≡ ok raw)
          × (e ≡ undelivered)
          × Unfinished said)
  Answered lib date random m (panic, said) = ⊥

  -- Send succeeds only if the server accepted every command, from the greeting over STARTTLS, where it is
  -- offered, and the credentials, where there are any, to the end, and what it was given is the rendered
  -- message, from the parsed sender to the parsed recipient. If it fails, either Render refused the
  -- message with the same error and nothing was said; or the message was rendered, the error is
  -- ErrUndelivered, and nobody answered, or the last command was refused after all before it were
  -- accepted, or the server did not offer the encryption that this sender needs.
  pub send-Answered :
      (lib : MailLibrary) (date : Bytes) (random : Option Bytes) (m : Message)
      → Answered lib date random m (send server lib date random s m)
  unfolding send send_parsed
  send-Answered lib date random m =
      go (render lib date random s.from m) refl (render-Returns lib date random s.from m)
    where
      sent :
          (raw : Bytes) (from to : Address)
          → render lib date random s.from m ≡ ok raw
          → sender_address lib s.from ≡ ok from
          → recipient lib m.to ≡ ok to
          → (r : MailResult (Unit {0}) × List Command) → Sent from.address to.address raw r
          → Answered lib date random m r
      sent raw from to p q w (ok u, said) h = (raw, from, to, p, q, w, h.0, h.1)
      sent raw from to p q w (err e, said) (same, unfinished) = inr (raw, p, same, unfinished)
      sent raw from to p q w (panic, said) h = h

      go :
          (r : MailResult Bytes)
          → render lib date random s.from m ≡ r
          → Returns r
          → Answered lib date random m
              (send_parsed server s r (recipient lib m.to) (sender_address lib s.from))
      go (err e) p h = inl (p, refl)
      go panic p h = h
      go (ok raw) p h =
          let (from, to, sent_as, received) = render-parsed lib date random s.from m raw p in
          simp (sent_as, received)
            (sent raw from to p sent_as received (send_raw server s from.address to.address raw)
              (send_raw-Sent from.address to.address raw))
