-- ===== src/Identity/Service/Sessions.antt =====
-- backend/internal/modules/identity/service/session.go: sessions are issued, authenticated and
-- ended. Logging is left out. `pgtype.UUID.Scan` is a parameter.
pub mod Joined
pub mod Masked
pub mod Lifecycle
pub mod Ownership
pub mod Reached
pub mod Recent
pub mod Windows
use project_management.Identity.Failure.{
  Failure, Result, rescue, is_no_rows, random_failed, unauthenticated, session_not_found,
  not_a_uuid,
}
use project_management.Identity.Session.{
  Session, new_session_expiry, is_expired, needs_renewal, renewed_expiry,
}
use project_management.Identity.Store.Sessions.{
  create_session_row, get_session_row, touch_session_rows, delete_session_by_token_hash_rows,
  list_sessions_by_user_rows, delete_session_for_user_rows, delete_other_sessions_for_user_rows,
}
use project_management.Identity.Tables.{
  UserRow, SessionRow, Tables, Fails, M, ◌>>=◌, return, fail, lift, with_error,
}
use project_management.Identity.Token.{TokenError, new_opaque_token, session_token_digest}
use project_management.Identity.Utf8.{to_valid_utf8}
use project_management.Identity.Window.{Time}
use project_management.Prelude.Outcome.{Outcome, ok, err, panic}
use project_management.Prelude.{
  ℕ, Bool, not, Option, List, [], ◌∷◌, map, Bytes, bytes_eq, length, take, ltb, ◌==◌, if◌then◌else◌,
}

abbrev pub max_user_agent_length : ℕ
max_user_agent_length = 512

-- What one call finds around it: which statements fail, what `rand.Read` gave, the id that the
-- database draws, and the two clocks.
pub record Call : Type 0 where
  pub fails : Fails
  pub raw_read : Option Bytes
  pub new_id : Bytes
  pub clock : Time
  pub db_now : Time

unfoldable pub clean_user_agent : Bytes → Bytes
clean_user_agent agent =
    to_valid_utf8
      (if ltb max_user_agent_length (length agent) then take max_user_agent_length agent else agent)

-- The row as the domain sees it.
unfoldable pub session_of : SessionRow → Session
session_of row = record {
  id = row.id;
  user_id = row.user_id;
  created_at = row.created_at;
  last_seen_at = row.last_seen_at;
  expires_at = row.expires_at;
}

pub record Authenticated : Type 0 where
  pub session_id : Bytes
  pub user_id : Bytes
  pub email : Bytes
  pub name : Bytes
  pub timezone : Bytes
  pub role : Bytes

pub record SessionSummary : Type 0 where
  pub id : Bytes
  pub user_agent : Bytes
  pub created_at : Time
  pub last_seen_at : Time
  pub expires_at : Time
  pub current : Bool

-- The one failure of drawing a token.
pub drawn : Outcome TokenError (Bytes × Bytes) → Result (Bytes × Bytes)
drawn (ok pair) = ok pair
drawn (err e) = err random_failed
drawn panic = panic

-- Any complaint about the token's shape becomes the one answer to not being signed in.
pub digest_or_unauthenticated : Outcome TokenError Bytes → Result Bytes
digest_or_unauthenticated (ok digest) = ok digest
digest_or_unauthenticated (err e) = err unauthenticated
digest_or_unauthenticated panic = panic

-- An error that is only logged.
pub ignore_error : Result ℕ × Tables → Result (Unit {0}) × Tables
ignore_error (ok n, t) = (ok tt, t)
ignore_error (err e, t) = (ok tt, t)
ignore_error (panic, t) = (panic, t)

pub renew : Call → Session → M (Unit {0})
unfolding ignore_error
renew call session t =
    if not (needs_renewal session call.clock)
    then (ok tt, t)
    else ignore_error
        (touch_session_rows call.fails call.db_now session.id (renewed_expiry session call.clock) t)

-- From the row on.
pub authenticate_row : Call → SessionRow → UserRow → M Authenticated
unfolding renew session_of
authenticate_row call row user =
    let session = session_of row in
    if is_expired session call.clock then fail unauthenticated else (do
      renewed ← renew call session
      return record {
        session_id = session.id;
        user_id = session.user_id;
        email = user.email;
        name = user.name;
        timezone = user.timezone;
        role = user.role;
      })

module _ (sha256 : Bytes → Bytes) where
  unfoldable pub issue : Call → (user_id user_agent : Bytes) → M (Bytes × Session)
  unfolding drawn session_of
  issue call user_id user_agent = do
    pair ← lift (drawn (new_opaque_token sha256 call.raw_read))
    row ←
        create_session_row call.fails call.new_id call.db_now user_id pair.1
          (clean_user_agent user_agent) (new_session_expiry call.clock)
    return (pair.0, session_of row)

  unfoldable pub authenticate : Call → (token : Bytes) → M Authenticated
  unfolding digest_or_unauthenticated authenticate_row
  authenticate call token = do
    digest ← lift (digest_or_unauthenticated (session_token_digest sha256 token))
    found ← with_error (rescue is_no_rows unauthenticated) (get_session_row call.fails digest)
    authenticate_row call found.0 found.1

  -- What was never a token has no row behind it.
  unfoldable pub revoke : Call → (token : Bytes) → M (Unit {0})
  revoke call token = elim (session_token_digest sha256 token) [
    | ok digest ↦ (do deleted ← delete_session_by_token_hash_rows call.fails digest; return tt)
    | err e ↦ return tt
    | panic ↦ lift panic
  ]

pub summary : Bytes → SessionRow → SessionSummary
summary current_session_id row = record {
  id = row.id;
  user_agent = row.user_agent;
  created_at = row.created_at;
  last_seen_at = row.last_seen_at;
  expires_at = row.expires_at;
  current = bytes_eq row.id current_session_id;
}

unfoldable pub list : Call → (user_id current_session_id : Bytes) → M (List SessionSummary)
unfolding summary
list call user_id current_session_id = do
  rows ← list_sessions_by_user_rows call.fails call.db_now user_id
  return (map (summary current_session_id) rows)

module _ (is_uuid : Bytes → Bool) where
  unfoldable pub revoke_by_id : Call → (user_id session_id : Bytes) → M (Unit {0})
  revoke_by_id call user_id session_id =
      if not (is_uuid session_id) then fail session_not_found else (do
        deleted ← delete_session_for_user_rows call.fails session_id user_id
        if deleted == 0 then fail session_not_found else return tt)

  unfoldable pub revoke_others : Call → (user_id current_session_id : Bytes) → M ℕ
  revoke_others call user_id current_session_id =
      if not (is_uuid current_session_id)
      then fail not_a_uuid
      else delete_other_sessions_for_user_rows call.fails user_id current_session_id
