-- ===== src/Identity/Service/Credentials.antt =====
-- backend/internal/modules/identity/service/credentials.go: an address and a password are checked, and
-- an old hash is written again. Beside an answer stand the runs of Argon2 that the check took. Logging
-- is left out.
pub mod Even
pub mod Sound
use project_management.Identity.Base64.{encode as base64_url}
use project_management.Identity.Failure.{
  Failure, Result, is_no_rows, random_failed, invalid_credentials,
}
use project_management.Identity.Password.{PasswordCrypto, hash_password}
use project_management.Identity.Password.Reading.{Scanner, Run, verify_password, needs_rehash}
use project_management.Identity.Service.Invitations.{User, user_of}
use project_management.Identity.Store.Users.{get_user_by_email_row, update_user_password_hash_rows}
use project_management.Identity.Tables.{UserRow, Tables, Fails}
use project_management.Identity.Window.{Time}
use project_management.Prelude.Outcome.{ok, err, panic, ◌>>=◌}
use project_management.Prelude.{ℕ, Bool, Option, none, some, List, [], Bytes, if◌then◌else◌}

-- What one call finds around it.
pub record Call : Type 0 where
  pub fails : Fails
  pub salt_read : Option Bytes
  pub db_now : Time

-- The answer, and the runs of Argon2 of the check.
pub record Checked : Type 0 where
  pub answer : Result User
  pub runs : List Run

-- `NewCredentials`: the decoy is a hash of a random text.
unfoldable pub new_credentials :
    PasswordCrypto → (secret_read salt_read : Option Bytes) → Result Bytes
new_credentials crypto none salt_read = err random_failed
new_credentials crypto (some secret) salt_read = hash_password crypto salt_read (base64_url secret)

module _ (crypto : PasswordCrypto) (scanner : Scanner) (cpus : ℕ) where
  -- A failure leaves the hash as it was.
  abbrev pub store_rehash : Call → (user_id current_hash : Bytes) → Result Bytes → Tables → Tables
  store_rehash c user_id current_hash (ok updated) t =
      (update_user_password_hash_rows c.fails c.db_now user_id updated current_hash t).1
  store_rehash c user_id current_hash (err e) t = t
  store_rehash c user_id current_hash panic t = t

  unfoldable pub rehash : Call → (user_id current_hash password : Bytes) → Tables → Tables
  rehash c user_id current_hash password t =
      if needs_rehash crypto scanner cpus current_hash
      then store_rehash c user_id current_hash (hash_password crypto c.salt_read password) t
      else t

  -- The account was found, and its hash was checked.
  unfoldable pub authenticate_checked :
      Call → UserRow → (password : Bytes) → Result (Unit {0}) × List Run → Tables → Checked × Tables
  unfolding rehash
  authenticate_checked c row password (ok u, runs) t = (
    record { answer = ok (user_of row); runs = runs },
    rehash c row.id row.password_hash password t,
  )
  authenticate_checked c row password (err e, runs) t =
      (record { answer = err invalid_credentials; runs = runs }, t)
  authenticate_checked c row password (panic, runs) t = (record { answer = panic; runs = runs }, t)

  -- With no account the decoy is checked, and the result thrown away.
  unfoldable pub authenticate_found :
      (decoy : Bytes) → Call → (password : Bytes) → Result UserRow × Tables → Checked × Tables
  unfolding authenticate_checked
  authenticate_found decoy c password (ok row, t) =
      authenticate_checked c row password
        (verify_password crypto scanner cpus row.password_hash password) t
  authenticate_found decoy c password (err e, t) = (
    if is_no_rows e
        then record {
          answer = err invalid_credentials;
          runs = (verify_password crypto scanner cpus decoy password).1;
        }
        else record { answer = err e; runs = [] },
    t,
  )
  authenticate_found decoy c password (panic, t) = (record { answer = panic; runs = [] }, t)

  unfoldable pub authenticate :
      (lower : Bytes → Bytes) (decoy : Bytes)
      → Call
      → (email password : Bytes) → Tables
      → Checked × Tables
  unfolding authenticate_found
  authenticate lower decoy c email password t =
      authenticate_found decoy c password (get_user_by_email_row lower c.fails email t)
