-- ===== src/Server/Production.antt =====
-- Mail in production.
use mathlib.Core.Bool.{xor}
use project_management.Config.Valid.{load-IsValid}
use project_management.Config.{load}
use project_management.Config.Settings.{
  Env, unset, local, production, Config, ConfigLibrary, Lookup, is_production,
}
use project_management.Mail.Smtp.Sealed.{Secured, Sealed, new_smtp-with, send-Sealed}
use project_management.Mail.Smtp.{
  Options, Sender, Command, greet, data_begin, data_end, quit, start_tls, login, mail, rcpt, body,
  Server, new_smtp, sender_of, with_credentials, send,
}
use project_management.Mail.{Message, MailLibrary, MailError, MailResult}
use project_management.Server.{is_local, mail_options}
use project_management.Prelude.Outcome.{ok, err}
use project_management.Prelude.{
  true, false, not, ◌&&◌, Option, none, some, List, [], ◌∷◌, Bytes, bytes_eq, bytes_eq_iff, ◌≡◌,
  ◌≢◌, ◌⊎◌, inl, inr, refl, ◌∙◌, ap, if◌then◌else◌, Bool-cases,
}

module _ (server : Server) (s : Sender) where
  -- Every command but the greeting and STARTTLS itself stands after a STARTTLS that was accepted.
  abbrev pub Encrypted : List Command → Type 0
  Encrypted [] = Unit
  Encrypted (greet ∷ said) = Encrypted said
  Encrypted (start_tls host ∷ said) = Encrypted said
  Encrypted (c ∷ said) = Secured server s said × Encrypted said

  only-Secured :
      (said : List Command)
      → s.allow_unencrypted ≡ false
      → (s.allow_unencrypted ≡ true) ⊎ Secured server s said
      → Secured server s said
  only-Secured said closed (inl free) = absurd (cc)
  only-Secured said closed (inr secured) = secured

  Sealed-Encrypted :
      (said : List Command) → s.allow_unencrypted ≡ false → Sealed server s said → Encrypted said
  Sealed-Encrypted [] closed h = tt
  Sealed-Encrypted (greet ∷ said) closed h = Sealed-Encrypted said closed h.1
  Sealed-Encrypted (start_tls host ∷ said) closed h = Sealed-Encrypted said closed h.1
  Sealed-Encrypted (login u p host ∷ said) closed h = (h.0, Sealed-Encrypted said closed h.1)
  Sealed-Encrypted (data_begin ∷ said) closed h =
      (only-Secured said closed h.0, Sealed-Encrypted said closed h.1)
  Sealed-Encrypted (data_end ∷ said) closed h =
      (only-Secured said closed h.0, Sealed-Encrypted said closed h.1)
  Sealed-Encrypted (quit ∷ said) closed h =
      (only-Secured said closed h.0, Sealed-Encrypted said closed h.1)
  Sealed-Encrypted (mail a ∷ said) closed h =
      (only-Secured said closed h.0, Sealed-Encrypted said closed h.1)
  Sealed-Encrypted (rcpt a ∷ said) closed h =
      (only-Secured said closed h.0, Sealed-Encrypted said closed h.1)
  Sealed-Encrypted (body raw ∷ said) closed h =
      (only-Secured said closed h.0, Sealed-Encrypted said closed h.1)

with_credentials-of :
    (opts : Options) (s : Sender) → with_credentials opts ≡ ok s → s ≡ sender_of opts
with_credentials-of opts s e =
    elim (Bool-cases (xor (bytes_eq opts.username []) (bytes_eq opts.password []))) [
      | inl apart ↦ absurd (err_ne_ok (rw apart at e))
      | inr paired ↦ elim (Bool-cases (not (bytes_eq opts.username []) && opts.allow_unencrypted)) [
        | inl bare ↦ absurd (err_ne_ok (rw (paired, bare) at e))
        | inr fine ↦ ok_same (rw (paired, fine) at e)
      ]
    ]
  where
    err_ne_ok : {f : MailError} → ◌≢◌ {A = MailResult Sender} (err f) (ok s)
    err_ne_ok q = cc

    ok_same : {r : Sender} → ◌≡◌ {A = MailResult Sender} (ok r) (ok s) → s ≡ r
    ok_same q = cc

not_local : (env : Env) → is_production env ≡ true → is_local env ≡ false
not_local unset e = cc
not_local local e = cc
not_local production e = refl

-- In production no mail goes out in the clear: with a configuration that loads as production and the
-- sender that the server makes of it, there are credentials to sign in with, and whatever the mail
-- server offers and accepts, every command but the greeting and STARTTLS itself, so the credentials, the
-- addresses and the message, is said only after a STARTTLS that was accepted.
pub production-Encrypted :
    {Addr Prefix : Type 0} (config : ConfigLibrary Addr Prefix) (lib : MailLibrary)
    (lookup : Lookup) (cfg : Config Prefix) (s : Sender)
    → load config lookup ≡ ok cfg
    → is_production cfg.env ≡ true
    → new_smtp lib (mail_options cfg) ≡ ok s
    → (s.auth ≡ some (cfg.smtp.username, cfg.smtp.password))
      × ((server : Server) (date : Bytes) (random : Option Bytes) (m : Message)
          → Encrypted server s (send server lib date random s m).1)
unfolding mail_options
production-Encrypted config lib lookup cfg s loaded live made =
    let valid = load-IsValid config lookup cfg loaded in
    let same =
      with_credentials-of (mail_options cfg) s (new_smtp-with lib (mail_options cfg) s made) in
    let closed : s.allow_unencrypted ≡ false =
      ap (λ (x : Sender). x.allow_unencrypted) same ∙ not_local cfg.env live in
    (
      ap (λ (x : Sender). x.auth) same ∙ named (valid.signed_in_mail live),
      λ server date random m.
          Sealed-Encrypted server s _ closed
            (send-Sealed lib (mail_options cfg) s server date random m made),
    )
  where
    named :
        cfg.smtp.username ≢ []
        → ◌≡◌ {A = Option (Bytes × Bytes)}
            (if bytes_eq cfg.smtp.username []
              then none
              else some (cfg.smtp.username, cfg.smtp.password))
            (some (cfg.smtp.username, cfg.smtp.password))
    named given = elim (Bool-cases (bytes_eq cfg.smtp.username [])) [
      | inl nobody ↦ absurd (given ((bytes_eq_iff cfg.smtp.username []).0 nobody))
      | inr somebody ↦ rw somebody refl
    ]
