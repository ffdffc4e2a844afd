-- ===== src/Identity/Handler/PasswordResets.antt =====
-- backend/internal/modules/identity/handler/passwordresets.go: asking for a reset link, and following it. A
-- request comes with its body read or not. Logging is left out.
pub mod Uniform
pub mod SignedOut
use project_management.Httpx.Errors.{FieldError, validation_failed, not_found}
use project_management.Identity.Failure.{
  Failure, Result, password_too_short, password_too_long, invalid_email, password_reset_not_usable,
}
use project_management.Identity.Handler.Reply.{
  Cookie, untouched, cleared, Reply, write_error, write_internal_error, write_rate_limited,
  write_header, required, too_short_reply, too_long_reply, unreadable,
}
use project_management.Identity.Password.{PasswordCrypto}
use project_management.Identity.Service.Invitations.{Call}
use project_management.Identity.Service.Reset.{Surroundings, confirm}
use project_management.Identity.Service.ResetRequest.{
  Limiter, Told, accepted, crashed, too_many_attempts, refused, Requested, request,
}
use project_management.Identity.Tables.{Tables}
use project_management.Prelude.Outcome.{ok, err, panic}
use project_management.Prelude.{
  Option, none, some, List, [], ◌∷◌, Bytes, codes, bytes_eq, if◌then◌else◌,
}

unfoldable pub write_request_error : Failure → Reply
write_request_error invalid_email =
    write_error validation_failed (codes "Alamat email tidak valid.")
      (record { field = codes "email"; code = codes "INVALID" } ∷ [])
write_request_error e = write_internal_error

-- What is made of the service's answer to a request.
unfoldable pub requested_reply : Told → Reply
unfolding write_request_error
requested_reply accepted = write_header 202 untouched
requested_reply crashed = write_internal_error
requested_reply (too_many_attempts wait) = write_rate_limited wait
requested_reply (refused e) = write_request_error e

unfoldable pub write_confirm_error : Failure → Reply
write_confirm_error password_reset_not_usable =
    write_error not_found
      (codes "Tautan ini tidak berlaku. Minta tautan baru lewat halaman lupa sandi.") []
write_confirm_error password_too_short = too_short_reply
write_confirm_error password_too_long = too_long_reply
write_confirm_error e = write_internal_error

-- What is made of the service's answer to a confirmation.
unfoldable pub confirmed_reply : Result (Unit {0}) × Tables → Reply × Tables
unfolding write_confirm_error
confirmed_reply (ok u, t) = (write_header 204 cleared, t)
confirmed_reply (err e, t) = (write_confirm_error e, t)
confirmed_reply (panic, t) = (write_internal_error, t)

-- What the endpoints call.
pub record Parts (S : Type 0) : Type 0 where
  pub sha256 : Bytes → Bytes
  pub fold : Bytes → Bytes
  pub lower : Bytes → Bytes
  pub crypto : PasswordCrypto
  pub parse_address : Bytes → Option Bytes
  pub join_path : Bytes → Bytes → Bytes
  pub limiter : Limiter S

module _ {S : Type 0} (parts : Parts S) where
  abbrev pub replied : Requested × (S × Tables) → Reply × (S × Tables)
  replied (r, after) = (requested_reply r.told, after)

  -- `Request`, of the address in the body.
  unfoldable pub request_reset : Call → Option Bytes → S → Tables → Reply × (S × Tables)
  unfolding requested_reply
  request_reset call none s t = (unreadable, (s, t))
  request_reset call (some email) s t =
      if bytes_eq email []
      then (
        write_error validation_failed (codes "Email wajib diisi.")
            (record { field = codes "email"; code = codes "REQUIRED" } ∷ []),
        (s, t),
      )
      else replied (
          request parts.lower parts.sha256 parts.fold parts.parse_address parts.join_path
            parts.limiter call email s t)

  -- `Confirm`, with the fields that are missing.
  unfoldable pub confirm_checked :
      Surroundings → (token password : Bytes) → List FieldError → Tables → Reply × Tables
  unfolding confirmed_reply
  confirm_checked call token password (d ∷ ds) t =
      (write_error validation_failed (codes "Tautan dan sandi baru wajib diisi.") (d ∷ ds), t)
  confirm_checked call token password [] t =
      confirmed_reply (confirm parts.sha256 parts.crypto call token password t)

  -- `Confirm`, of the token and the password in the body.
  unfoldable pub confirm_reset : Surroundings → Option (Bytes × Bytes) → Tables → Reply × Tables
  unfolding confirm_checked
  confirm_reset call none t = (unreadable, t)
  confirm_reset call (some (token, password)) t =
      confirm_checked call token password
        (required (codes "token") token (required (codes "password") password [])) t
