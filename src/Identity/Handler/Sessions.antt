-- ===== src/Identity/Handler/Sessions.antt =====
-- backend/internal/modules/identity/handler/sessions.go and caller.go: an account's own sessions, and who it
-- is; and RequireSession of backend/internal/modules/identity/route/route.go, which finds the caller for
-- them. Logging is left out.
pub mod Own
use project_management.Httpx.Errors.{unauthenticated, not_found}
use project_management.Identity.Failure.{Failure, Result, session_not_found}
use project_management.Identity.Failure as Failure
use project_management.Identity.Handler.Reply.{
  Cookie, untouched, cleared, account, sessions, revoked, Reply, write_error, write_internal_error,
  write_json, write_header,
}
use project_management.Identity.Service.Invitations.{User}
use project_management.Identity.Service.Sessions.{
  Call, Authenticated, SessionSummary, authenticate, list, revoke_by_id, revoke_others,
}
use project_management.Identity.Tables.{Tables}
use project_management.Prelude.Outcome.{ok, err, panic}
use project_management.Prelude.{
  ℕ, Bool, Option, none, some, List, [], Bytes, codes, bytes_eq, if◌then◌else◌,
}

abbrev pub listed_reply : Result (List SessionSummary) × Tables → Reply × Tables
listed_reply (ok found, t) = (write_json 200 untouched (sessions found), t)
listed_reply (err e, t) = (write_internal_error, t)
listed_reply (panic, t) = (write_internal_error, t)

-- `ListSessions`, of the caller that the middleware found.
unfoldable pub list_sessions : Call → Option Authenticated → Tables → Reply × Tables
list_sessions call none t = (write_internal_error, t)
list_sessions call (some who) t = listed_reply (list call who.user_id who.session_id t)

abbrev pub write_revoke_error : Failure → Reply
write_revoke_error session_not_found = write_error not_found (codes "Sesi tidak ditemukan.") []
write_revoke_error e = write_internal_error

-- The cookie goes with the session that made the request.
abbrev pub revoked_reply :
    Authenticated → (id : Bytes) → Result (Unit {0}) × Tables → Reply × Tables
revoked_reply who id (ok u, t) =
    (write_header 204 (if bytes_eq id who.session_id then cleared else untouched), t)
revoked_reply who id (err e, t) = (write_revoke_error e, t)
revoked_reply who id (panic, t) = (write_internal_error, t)

abbrev pub others_reply : Result ℕ × Tables → Reply × Tables
others_reply (ok n, t) = (write_json 200 untouched (revoked n), t)
others_reply (err e, t) = (write_internal_error, t)
others_reply (panic, t) = (write_internal_error, t)

module _ (is_uuid : Bytes → Bool) where
  -- `RevokeSession`, of the id in the path.
  unfoldable pub revoke_session :
      Call → (id : Bytes) → Option Authenticated → Tables → Reply × Tables
  revoke_session call id none t = (write_internal_error, t)
  revoke_session call id (some who) t =
      revoked_reply who id (revoke_by_id is_uuid call who.user_id id t)

  unfoldable pub revoke_other_sessions : Call → Option Authenticated → Tables → Reply × Tables
  revoke_other_sessions call none t = (write_internal_error, t)
  revoke_other_sessions call (some who) t =
      others_reply (revoke_others is_uuid call who.user_id who.session_id t)

-- `Me`.
unfoldable pub me : Option Authenticated → Tables → Reply × Tables
me none t = (write_internal_error, t)
me (some who) t = (
  write_json 200 untouched (
      account (record {
        id = who.user_id;
        email = who.email;
        name = who.name;
        timezone = who.timezone;
        role = who.role;
      })),
  t,
)

-- `refuse`.
abbrev pub refuse : Reply
refuse = write_error unauthenticated (codes "Silakan masuk lebih dulu.") []

abbrev pub refusal_of : Failure → Reply
refusal_of Failure.unauthenticated = refuse
refusal_of e = write_internal_error

-- What the handler leaves, the tables and whatever else it has, is an R.
module _ {R : Type 0} (left : Tables → R) where
  -- `RequireSession`, once the session is looked up.
  unfoldable pub with_caller :
      (next : Option Authenticated → Tables → Reply × R) → Result Authenticated × Tables → Reply × R
  with_caller next (ok who, t) = next (some who) t
  with_caller next (err e, t) = (refusal_of e, left t)
  with_caller next (panic, t) = (write_internal_error, left t)

  unfoldable pub require_session :
      (sha256 : Bytes → Bytes)
      → Call
      → (next : Option Authenticated → Tables → Reply × R) → (cookie : Option Bytes) → Tables
      → Reply × R
  unfolding with_caller
  require_session sha256 call next none t = (refuse, left t)
  require_session sha256 call next (some token) t =
      with_caller next (authenticate sha256 call token t)

-- A handler that leaves nothing but tables.
abbrev pub tables_alone : Tables → Tables
tables_alone t = t
