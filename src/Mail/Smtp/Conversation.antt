-- ===== src/Mail/Smtp/Conversation.antt =====
-- What is said in a conversation with the mail server in which everything is accepted.
use project_management.Mail.Smtp.{
  Sender, Command, greet, data_begin, data_end, quit, start_tls, login, mail, rcpt, body, Server,
  Talk, continue, ◌>>◌, say, secure, sign_in_as, sign_in, deliver,
}
use project_management.Mail.{MailResult, undelivered}
use mathlib.Core.List.{append_assoc}
use project_management.Prelude.Outcome.{ok, err, panic}
use project_management.Prelude.{
  Bool, true, false, Option, none, some, List, [], ◌∷◌, ◌++◌, Bytes, ◌≡◌, refl, inl, inr, ap, sym,
  subst, ◌∙◌, arith, if◌then◌else◌, Bool-cases,
}

module _ (server : Server) (s : Sender) where
  -- Every command was accepted after what had been said before it.
  abbrev pub Accepted : List Command → Type 0
  Accepted [] = Unit
  Accepted (c ∷ said) = (server.accepts said c ≡ true) × Accepted said

  -- A part that succeeded has said `more`.
  abbrev Says : List Command → Talk → Type 0
  Says more k =
      (said : List Command)
      → Accepted said
      → (k said).0 ≡ ok tt
      → ((k said).1 ≡ more ++ said) × Accepted (k said).1

  say-Says : (c : Command) → Says (c ∷ []) (say server c)
  unfolding say
  say-Says c said h e = (refl, (ground arith, h))

  Says-then : (a b : List Command) (m k : Talk) → Says a m → Says b k → Says (b ++ a) (m >> k)
  Says-then a b m k f g said h e = go (m said) (f said h) e
    where
      go :
          (r : MailResult (Unit {0}) × List Command)
          → (r.0 ≡ ok tt → (r.1 ≡ a ++ said) × Accepted r.1)
          → (continue k r).0 ≡ ok tt
          → ((continue k r).1 ≡ (b ++ a) ++ said) × Accepted (continue k r).1
      go (ok u, t) p q =
          let (same, accepted) = p refl in
          let (more, all) = g t accepted q in
          (more ∙ ap (λ (x : List Command). b ++ x) same ∙ sym (append_assoc b a said), all)
      go (err x, t) p q = absurd (cc)
      go (panic, t) p q = absurd (cc)

  abbrev pub login_of : Option (Bytes × Bytes) → List Command
  login_of none = []
  login_of (some (username, password)) = login username password s.host ∷ []

  sign_in-Says : Says (login_of s.auth) (sign_in server s)
  unfolding sign_in
  sign_in-Says = go s.auth
    where
      go : (auth : Option (Bytes × Bytes)) → Says (login_of auth) (sign_in_as server s.host auth)
      go none said h e = (refl, h)
      go (some (username, password)) said h e = say-Says (login username password s.host) said h e

  -- STARTTLS where it is offered.
  abbrev pub encrypted : List Command
  encrypted = if server.offers_start_tls (greet ∷ []) then start_tls s.host ∷ [] else []

  accepted_if :
      (b : Bool)
      → ◌≡◌ {A = MailResult (Unit {0})} (if b then ok tt else err undelivered) (ok tt)
      → b ≡ true
  accepted_if true e = refl
  accepted_if false e = cc

  secure-Says :
      (secure server s (greet ∷ [])).0 ≡ ok tt
      → Accepted (greet ∷ [])
      → ((secure server s (greet ∷ [])).1 ≡ encrypted ++ greet ∷ [])
        × Accepted (secure server s (greet ∷ [])).1
  unfolding secure say
  secure-Says e h = elim (Bool-cases (server.offers_start_tls (greet ∷ []))) [
    | inl offered ↦ simp offered (refl, (accepted_if _ (rw offered at e), h))
    | inr silent_on_it ↦ elim (Bool-cases s.allow_unencrypted) [
      | inl free ↦ simp (silent_on_it, free) (refl, h)
      | inr sealed ↦ absurd (ground arith)
    ]
  ]

  -- What is said once the connection is as it has to be, the last command first.
  abbrev pub dialogue : (from to raw : Bytes) → List Command
  dialogue from to raw =
      quit ∷ data_end ∷ body raw ∷ data_begin ∷ rcpt to ∷ mail from ∷ login_of s.auth

  abbrev the_rest : (from to raw : Bytes) → Talk
  the_rest from to raw = do
    sign_in server s
    say server (mail from)
    say server (rcpt to)
    say server data_begin
    say server (body raw)
    say server data_end
    say server quit

  the_rest-Says : (from to raw : Bytes) → Says (dialogue from to raw) (the_rest from to raw)
  the_rest-Says from to raw =
      Says-then (login_of s.auth)
        (quit ∷ data_end ∷ body raw ∷ data_begin ∷ rcpt to ∷ mail from ∷ []) _ _ sign_in-Says
        (Says-then (mail from ∷ []) (quit ∷ data_end ∷ body raw ∷ data_begin ∷ rcpt to ∷ []) _ _
          (say-Says (mail from))
          (Says-then (rcpt to ∷ []) (quit ∷ data_end ∷ body raw ∷ data_begin ∷ []) _ _
            (say-Says (rcpt to))
            (Says-then (data_begin ∷ []) (quit ∷ data_end ∷ body raw ∷ []) _ _ (say-Says data_begin)
              (Says-then (body raw ∷ []) (quit ∷ data_end ∷ []) _ _ (say-Says (body raw))
                (Says-then (data_end ∷ []) (quit ∷ []) _ _ (say-Says data_end) (say-Says quit))))))

  pub deliver-Says :
      (from to raw : Bytes)
      → (deliver server s from to raw []).0 ≡ ok tt
      → ((deliver server s from to raw []).1 ≡ dialogue from to raw ++ (encrypted ++ greet ∷ []))
        × Accepted (deliver server s from to raw []).1
  unfolding deliver
  deliver-Says from to raw e = after_greeting (say server greet []) (say-Says greet [] tt) e
    where
      after_secure :
          (r : MailResult (Unit {0}) × List Command)
          → (r.0 ≡ ok tt → (r.1 ≡ encrypted ++ greet ∷ []) × Accepted r.1)
          → (continue (the_rest from to raw) r).0 ≡ ok tt
          → ((continue (the_rest from to raw) r).1
              ≡ dialogue from to raw ++ (encrypted ++ greet ∷ []))
            × Accepted (continue (the_rest from to raw) r).1
      after_secure (ok u, t) p q =
          let (same, accepted) = p refl in
          let (more, all) = the_rest-Says from to raw t accepted q in
          (more ∙ ap (λ (x : List Command). dialogue from to raw ++ x) same, all)
      after_secure (err x, t) p q = absurd (cc)
      after_secure (panic, t) p q = absurd (cc)

      after_greeting :
          (r : MailResult (Unit {0}) × List Command)
          → (r.0 ≡ ok tt → (r.1 ≡ greet ∷ []) × Accepted r.1)
          → (continue (secure server s >> the_rest from to raw) r).0 ≡ ok tt
          → ((continue (secure server s >> the_rest from to raw) r).1
              ≡ dialogue from to raw ++ (encrypted ++ greet ∷ []))
            × Accepted (continue (secure server s >> the_rest from to raw) r).1
      after_greeting (ok u, t) p q =
          let (same, accepted) = p refl in
          subst
            (λ t.
              (continue (the_rest from to raw) (secure server s t)).0 ≡ ok tt
              → ((continue (the_rest from to raw) (secure server s t)).1
                  ≡ dialogue from to raw ++ (encrypted ++ greet ∷ []))
                × Accepted (continue (the_rest from to raw) (secure server s t)).1)
            (sym same)
            (after_secure (secure server s (greet ∷ []))
              (λ f. secure-Says f (subst Accepted same accepted)))
            q
      after_greeting (err x, t) p q = absurd (cc)
      after_greeting (panic, t) p q = absurd (cc)
