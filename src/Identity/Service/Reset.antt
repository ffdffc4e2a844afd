-- ===== src/Identity/Service/Reset.antt =====
-- service/passwordreset.go, `Confirm`: a link replaces a password once. The application's clock and
-- the database's may differ.
pub mod Rows
pub mod SingleUse
use project_management.Identity.Failure.{
  Failure, Result, rescue, is_no_rows, password_reset_not_usable,
}
use project_management.Identity.Password.{PasswordCrypto, hash_password}
use project_management.Identity.PasswordReset.{PasswordReset, is_usable}
use project_management.Identity.Store.Resets.{get_password_reset_row, use_password_reset_rows}
use project_management.Identity.Store.Sessions.{delete_all_sessions_for_user_rows}
use project_management.Identity.Store.Users.{set_user_password_hash_row}
use project_management.Identity.Tables.{
  ResetRow, Tables, Fails, M, ◌>>=◌, return, fail, lift, with_error, in_tx,
}
use project_management.Identity.Token.{TokenError, password_reset_token_digest}
use project_management.Identity.Window.{Time}
use project_management.Prelude.Outcome.{Outcome, ok, err, panic}
use project_management.Prelude.{ℕ, Bool, not, Option, Bytes, ◌==◌, if◌then◌else◌}

-- What one call finds around it: which statements fail, the salt, and the two clocks.
pub record Surroundings : Type 0 where
  pub fails : Fails
  pub salt_read : Option Bytes
  pub clock : Time
  pub db_now : Time

-- The row as the domain sees it.
pub reset_of : ResetRow → PasswordReset
reset_of row = record {
  id = row.id;
  user_id = row.user_id;
  used_at = row.used_at;
  created_at = row.created_at;
  expires_at = row.expires_at;
}

-- Any complaint about the token's shape becomes the one answer of this path.
pub digest_or_refuse : Outcome TokenError Bytes → Result Bytes
digest_or_refuse (ok digest) = ok digest
digest_or_refuse (err e) = err password_reset_not_usable
digest_or_refuse panic = panic

-- From the stamp on: the row was usable when it was read.
pub confirm_stamp : Surroundings → PasswordReset → Bytes → M (Unit {0})
confirm_stamp s reset hash = do
  stamped ← use_password_reset_rows s.fails s.db_now reset.id
  if stamped == 0 then fail password_reset_not_usable else (do
    user ←
        with_error (rescue is_no_rows password_reset_not_usable)
          (set_user_password_hash_row s.fails s.db_now reset.user_id hash)
    revoked ← delete_all_sessions_for_user_rows s.fails user.id
    return tt)

-- From the read on.
pub confirm_row : Surroundings → ResetRow → Bytes → M (Unit {0})
unfolding confirm_stamp reset_of
confirm_row s row hash =
    let reset = reset_of row in
    if not (is_usable reset s.clock)
    then fail password_reset_not_usable
    else confirm_stamp s reset hash

-- The function that runs in the transaction.
pub confirm_body : Surroundings → Bytes → Bytes → M (Unit {0})
unfolding confirm_row
confirm_body s digest hash = do
  row ←
      with_error (rescue is_no_rows password_reset_not_usable)
        (get_password_reset_row s.fails digest)
  confirm_row s row hash

module _ (sha256 : Bytes → Bytes) (crypto : PasswordCrypto) where
  unfoldable pub confirm : Surroundings → (token password : Bytes) → M (Unit {0})
  unfolding digest_or_refuse confirm_body
  confirm s token password = do
    digest ← lift (digest_or_refuse (password_reset_token_digest sha256 token))
    hash ← lift (hash_password crypto s.salt_read password)
    in_tx s.fails (confirm_body s digest hash)
