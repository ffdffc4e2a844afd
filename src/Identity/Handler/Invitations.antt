-- ===== src/Identity/Handler/Invitations.antt =====
-- backend/internal/modules/identity/handler/invitations.go: inviting somebody, and redeeming the link. A
-- request comes with its body read or not; reading it is net/http's and encoding/json's. Logging is
-- left out.
pub mod Welcome
pub mod Owner
use project_management.Authz.{Role, RoleError, Caller, parse_role, can, action_user_invite}
use project_management.Httpx.Errors.{
  FieldError, validation_failed, forbidden, not_found, conflict, internal,
}
use project_management.Identity.Failure.{
  Failure, Result, password_too_short, password_too_long, invalid_email, invalid_name,
  role_not_invitable, email_taken, invitation_not_usable,
}
use project_management.Identity.Handler.Reply.{
  Cookie, untouched, issued, invitation, account, Reply, write_error, write_internal_error,
  write_json, required, too_short_reply, too_long_reply, unreadable,
}
use project_management.Identity.Password.{PasswordCrypto}
use project_management.Identity.Service.Invitations as Service
use project_management.Identity.Service.Invitations.{
  Call, User, Created, refused, crashed, delivered, undelivered,
}
use project_management.Identity.Service.Sessions as Sessions
use project_management.Identity.Service.Sessions.{Authenticated}
use project_management.Identity.Session.{Session}
use project_management.Identity.Tables.{Tables}
use project_management.Prelude.Outcome.{ok, err, panic}
use project_management.Prelude.{
  Bool, true, false, not, ◌||◌, Option, none, some, List, [], ◌∷◌, ◌++◌, Bytes, codes,
  if◌then◌else◌,
}

-- The role is the one that the database stored; one that nobody knows is none.
abbrev pub may_invite_as : (user_id : Bytes) → Role × Option RoleError → Bool
may_invite_as user_id (role, some e) = false
may_invite_as user_id (role, none) =
    can (record { user_id = user_id; role = role }) action_user_invite

unfoldable pub may_invite : Authenticated → Bool
may_invite who = may_invite_as who.user_id (parse_role who.role)

unfoldable pub write_create_error : Failure → Reply
write_create_error invalid_email =
    write_error validation_failed (codes "Alamat email tidak valid.")
      (record { field = codes "email"; code = codes "INVALID" } ∷ [])
write_create_error role_not_invitable =
    write_error validation_failed (codes "Peran itu tidak bisa diundang.")
      (record { field = codes "role"; code = codes "INVALID" } ∷ [])
write_create_error email_taken =
    write_error conflict
      (codes "Alamat itu sudah punya akun. Tambahkan orangnya langsung ke folder atau project.") []
write_create_error e = write_internal_error

-- What is made of the service's answer, ErrUndeliverable included.
unfoldable pub created_reply : Created → Reply
unfolding write_create_error
created_reply (refused e) = write_create_error e
created_reply crashed = write_internal_error
created_reply (delivered invited m) = write_json 201 untouched (invitation invited)
created_reply (undelivered invited m) =
    write_error internal
      (codes
        "Undangan tercatat tapi emailnya gagal dikirim. Undang ulang untuk mengirim tautan baru.")
      []

unfoldable pub write_accept_error : Failure → Reply
write_accept_error invitation_not_usable =
    write_error not_found (codes "Tautan undangan ini tidak berlaku. Minta undangan baru ke owner.")
      []
write_accept_error password_too_short = too_short_reply
write_accept_error password_too_long = too_long_reply
write_accept_error invalid_name =
    write_error validation_failed (codes "Nama tidak bisa disimpan.")
      (record { field = codes "name"; code = codes "INVALID" } ∷ [])
write_accept_error email_taken =
    write_error conflict (codes "Alamat pada undangan ini sudah punya akun. Silakan masuk.") []
write_accept_error e = write_internal_error

-- What the endpoints call.
pub record Parts : Type 0 where
  pub sha256 : Bytes → Bytes
  pub lower : Bytes → Bytes
  pub crypto : PasswordCrypto
  pub parse_address : Bytes → Option Bytes
  pub join_path : Bytes → Bytes → Bytes

-- The body of an acceptance.
pub record Acceptance : Type 0 where
  pub token : Bytes
  pub name : Bytes
  pub password : Bytes

module _ (parts : Parts) where
  abbrev replied : Created × Tables → Reply × Tables
  replied (c, t) = (created_reply c, t)

  -- `Create`, with the fields that are missing.
  unfoldable pub create_checked :
      Call → Authenticated → (email role : Bytes) → List FieldError → Tables → Reply × Tables
  unfolding created_reply
  create_checked call who email role (d ∷ ds) t =
      (write_error validation_failed (codes "Email dan peran wajib diisi.") (d ∷ ds), t)
  create_checked call who email role [] t = replied (
      Service.create parts.lower parts.sha256 parts.parse_address parts.join_path call who.user_id
        email role t)

  -- `Create`, from the body on.
  unfoldable pub create_for :
      Call → Authenticated → Option (Bytes × Bytes) → Tables → Reply × Tables
  unfolding create_checked
  create_for call who none t = (unreadable, t)
  create_for call who (some (email, role)) t =
      create_checked call who email role
        (required (codes "email") email (required (codes "role") role [])) t

  -- `Create`: the caller that the session middleware found, and the address and the role of the body.
  unfoldable pub create_invitation :
      Call → Option Authenticated → Option (Bytes × Bytes) → Tables → Reply × Tables
  unfolding create_for
  create_invitation call none body t = (write_internal_error, t)
  create_invitation call (some who) body t =
      if not (may_invite who)
      then (write_error forbidden (codes "Hanya owner yang bisa mengundang pengguna.") [], t)
      else create_for call who body t

  abbrev pub session_reply : User → Result (Bytes × Session) × Tables → Reply × Tables
  session_reply user (ok (token, session), t) =
      (write_json 201 (issued token session.expires_at) (account user), t)
  session_reply user (err e, t) = (write_internal_error, t)
  session_reply user (panic, t) = (write_internal_error, t)

  -- `Accept`, once the account is there or not.
  unfoldable pub accepted_reply :
      Sessions.Call → (user_agent : Bytes) → Result User × Tables → Reply × Tables
  unfolding write_accept_error
  accepted_reply call user_agent (ok user, t) =
      session_reply user (Sessions.issue parts.sha256 call user.id user_agent t)
  accepted_reply call user_agent (err e, t) = (write_accept_error e, t)
  accepted_reply call user_agent (panic, t) = (write_internal_error, t)

  -- `Accept`, with the fields that are missing.
  unfoldable pub accept_checked :
      Call
      → Sessions.Call
      → Acceptance
      → (user_agent : Bytes) → List FieldError
      → Tables
      → Reply × Tables
  unfolding accepted_reply
  accept_checked call issuing a user_agent (d ∷ ds) t =
      (write_error validation_failed (codes "Tautan, nama, dan sandi wajib diisi.") (d ∷ ds), t)
  accept_checked call issuing a user_agent [] t =
      accepted_reply issuing user_agent
        (Service.accept parts.lower parts.sha256 parts.crypto call a.token a.name a.password t)

  unfoldable pub accept_invitation :
      Call → Sessions.Call → Option Acceptance → (user_agent : Bytes) → Tables → Reply × Tables
  unfolding accept_checked
  accept_invitation call issuing none user_agent t = (unreadable, t)
  accept_invitation call issuing (some a) user_agent t =
      accept_checked call issuing a user_agent
        (required (codes "token") a.token
          (required (codes "name") a.name (required (codes "password") a.password [])))
        t
