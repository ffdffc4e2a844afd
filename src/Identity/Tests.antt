-- ===== src/Identity/Tests.antt =====
-- The identity theorems at concrete inputs.
use project_management.Identity.Base64.{encode, decode}
use project_management.Identity.Password.{hash_password}
use project_management.Identity.Utf8.{rune_count}
use project_management.Identity.PasswordReset.{is_usable}
use project_management.Identity.Service.Reset.SingleUse.{confirm_effect, confirm_once}
use project_management.Identity.Service.Reset.{Surroundings, confirm, confirm_row}
use project_management.Identity.Store.Resets.{
  has_token, get_password_reset_row, use_password_reset_rows,
}
use project_management.Identity.Store.Sessions.{belongs_to, delete_all_sessions_for_user_rows}
use project_management.Identity.Store.Users.{has_id, with_password, set_user_password_hash_row}
use project_management.Identity.Tables.{
  ResetRow, Tables, Fails, commit, find_row, count_rows, update_rows, delete_rows, in_tx,
}
use project_management.Identity.Token.{password_reset_token_digest}
use project_management.Identity.Fixtures.{sha256, crypto, token, tables, calm}
use project_management.Prelude.Outcome.{ok}
use project_management.Prelude.{
  ◌<◌, true, false, none, some, Bytes, codes, bytes_eq, replicate, All, ◌≡◌, ◌≢◌, refl,
}

abbrev around : Surroundings
around = record { fails = calm; salt_read = some (replicate 16 1); clock = 10; db_now = 11 }

abbrev password : Bytes
password = codes "correct horse"

abbrev after : Tables
after = (confirm sha256 crypto around token password tables).1

confirm_runs : confirm sha256 crypto around token password tables ≡ (ok tt, after)
unfolding confirm encode bytes_eq password_reset_token_digest decode hash_password rune_count in_tx
    get_password_reset_row find_row is_usable use_password_reset_rows count_rows
    set_user_password_hash_row update_rows delete_all_sessions_for_user_rows
confirm_runs = refl

confirm_once_example :
    ((later : Surroundings) (other : Bytes) (t'' : Tables)
      → confirm sha256 crypto later token other after ≢ (ok tt, t''))
    × ((racing : Surroundings) (digest hash : Bytes) (row : ResetRow) (t'' : Tables)
        → password_reset_token_digest sha256 token ≡ ok digest
        → find_row (has_token digest) tables.resets ≡ some row
        → confirm_row racing row hash after ≢ (ok tt, t''))
confirm_once_example =
    confirm_once sha256 crypto around token password tables after (tt, tt) confirm_runs

confirm_effect_example :
    (digest hash : Bytes) × (row : ResetRow) × (password_reset_token_digest sha256 token
      ≡ ok digest)
    × (hash_password crypto around.salt_read password ≡ ok hash)
    × (find_row (has_token digest) tables.resets ≡ some row)
    × (row.used_at ≡ none)
    × (around.clock < row.expires_at)
    × (after.users
        ≡ update_rows (has_id row.user_id) (with_password around.db_now hash) tables.users)
    × (after.sessions ≡ delete_rows (belongs_to row.user_id) tables.sessions)
    × All (λ x. x.user_id ≢ row.user_id) after.sessions
    × (after.invitations ≡ tables.invitations)
confirm_effect_example =
    confirm_effect sha256 crypto around token password tables after confirm_runs

-- The commit fails.
abbrev lost : Fails
lost commit = true
lost s = false

-- A session that is a day old.
