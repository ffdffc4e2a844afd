-- ===== src/Identity/Service/Reset/Rows.antt =====
-- What a successful confirmation did to the tables, read off its statements one by one.
use project_management.Identity.Atomic.{KeepsOrSucceeds, in_tx_inv, in_tx-KeepsOrSucceeds}
use project_management.Identity.Failure.{Result}
use project_management.Identity.Password.{PasswordCrypto, hash_password}
use project_management.Identity.PasswordReset.{is_usable}
use project_management.Identity.Store.Resets.{
  has_token, is_open_id, stamped, get_password_reset_row, use_password_reset_rows,
}
use project_management.Identity.Store.Sessions.{belongs_to, delete_all_sessions_for_user_rows}
use project_management.Identity.Store.Users.{has_id, with_password, set_user_password_hash_row}
use project_management.Identity.Tables.{
  UserRow, ResetRow, Tables, find_row, count_rows, update_rows, delete_rows, in_tx, ◌>>=◌, lift,
}
use project_management.Identity.Token.{TokenError, password_reset_token_digest}
use project_management.Identity.Service.Reset.{
  Surroundings, reset_of, digest_or_refuse, confirm_row, confirm_body, confirm,
}
use project_management.Prelude.Outcome.{Outcome, ok, err, panic}
use project_management.Prelude.{true, some, Bytes, ◌≡◌, ◌≢◌, inl, inr, refl, arith, Option-cases}

-- The tables after the stamp, the new password and the end of the sessions.
abbrev pub after_confirm : Surroundings → ResetRow → Bytes → UserRow → Tables → Tables
after_confirm s row hash u t = record t {
  users = update_rows (has_id row.user_id) (with_password s.db_now hash) t.users;
  sessions = delete_rows (belongs_to u.id) t.sessions;
  resets = update_rows (is_open_id s.db_now row.id) (stamped s.db_now) t.resets;
}

-- What a confirmation that succeeds has found and done.
pub record Confirmed (s : Surroundings) (row : ResetRow) (hash : Bytes) (t t' : Tables)
    : Type 0 where
  pub usable : is_usable (reset_of row) s.clock ≡ true
  pub was_open : count_rows (is_open_id s.db_now row.id) t.resets ≢ 0
  pub user : UserRow
  pub user_found :
      find_row
        (has_id row.user_id)
        (update_rows (has_id row.user_id) (with_password s.db_now hash) t.users)
      ≡ some user
  pub tables_after : t' ≡ after_confirm s row hash user t

pub confirm_row-Confirmed :
    (s : Surroundings) (row : ResetRow) (hash : Bytes) (t t' : Tables)
    → confirm_row s row hash t ≡ (ok tt, t')
    → Confirmed s row hash t t'
unfolding confirm_row use_password_reset_rows set_user_password_hash_row
    delete_all_sessions_for_user_rows
confirm_row-Confirmed s row hash t t' e =
    elim (Option-cases (
      find_row (has_id row.user_id)
        (update_rows (has_id row.user_id) (with_password s.db_now hash) t.users))) [
          | inl none_found ↦ absurd (ground arith)
          | inr (u, found) ↦ record {
            usable = ground arith;
            was_open = ground arith;
            user = u;
            user_found = found;
            tables_after = ground arith;
          }
        ]

-- The call as a whole: the token's digest, the row that it leads to, and the hash that was written.
pub record Succeeded (sha256 : Bytes → Bytes) (crypto : PasswordCrypto) (s : Surroundings)
    (token password : Bytes) (t t' : Tables) : Type 0 where
  pub digest : Bytes
  pub hash : Bytes
  pub row : ResetRow
  pub token_read : password_reset_token_digest sha256 token ≡ ok digest
  pub password_hashed : hash_password crypto s.salt_read password ≡ ok hash
  pub row_found : find_row (has_token digest) t.resets ≡ some row
  pub confirmed : Confirmed s row hash t t'

confirm_body_inv :
    (s : Surroundings) (digest hash : Bytes) (t t' : Tables)
    → confirm_body s digest hash t ≡ (ok tt, t')
    → (row : ResetRow) × (find_row (has_token digest) t.resets ≡ some row)
      × (confirm_row s row hash t ≡ (ok tt, t'))
unfolding confirm_body get_password_reset_row
confirm_body_inv s digest hash t t' e = elim (Option-cases (find_row (has_token digest) t.resets)) [
  | inl missing ↦ absurd (ground arith)
  | inr (row, found) ↦ (row, found, ground arith)
]

module _ (sha256 : Bytes → Bytes) (crypto : PasswordCrypto) where
  pub confirm-Succeeded :
      (s : Surroundings) (token password : Bytes) (t t' : Tables)
      → confirm sha256 crypto s token password t ≡ (ok tt, t')
      → Succeeded sha256 crypto s token password t t'
  unfolding confirm
  confirm-Succeeded s token password t t' e =
      go (password_reset_token_digest sha256 token) refl (hash_password crypto s.salt_read password)
        refl
    where
      go :
          (d : Outcome TokenError Bytes)
          → password_reset_token_digest sha256 token ≡ d
          → (h : Result Bytes) → hash_password crypto s.salt_read password ≡ h
          → Succeeded sha256 crypto s token password t t'
      go (err f) de h he = absurd (ground arith)
      go panic de h he = absurd (ground arith)
      go (ok digest) de (err f) he = absurd (ground arith)
      go (ok digest) de panic he = absurd (ground arith)
      go (ok digest) de (ok hash) he =
          let runs : confirm_body s digest hash t ≡ (ok tt, t') =
            in_tx_inv s.fails (confirm_body s digest hash) t tt t' (ground arith) in
          let (row, found, more) = confirm_body_inv s digest hash t t' runs in
          record {
            digest = digest;
            hash = hash;
            row = row;
            token_read = de;
            password_hashed = he;
            row_found = found;
            confirmed = confirm_row-Confirmed s row hash t t' more;
          }

  -- A confirmation that does not succeed changes no table.
  confirm-KeepsOrSucceeds :
      (s : Surroundings) (token password : Bytes) (t : Tables)
      → KeepsOrSucceeds t (confirm sha256 crypto s token password t)
  unfolding confirm
  confirm-KeepsOrSucceeds s token password t =
      go (digest_or_refuse (password_reset_token_digest sha256 token))
        (hash_password crypto s.salt_read password)
    where
      go :
          (d h : Result Bytes)
          → KeepsOrSucceeds t (
              (lift d >>= λ digest. lift h >>= λ hash. in_tx s.fails (confirm_body s digest hash))
                t)
      go (err f) h = inl (refl, λ a q. cc)
      go panic h = inl (refl, λ a q. cc)
      go (ok digest) (err f) = inl (refl, λ a q. cc)
      go (ok digest) panic = inl (refl, λ a q. cc)
      go (ok digest) (ok hash) = in_tx-KeepsOrSucceeds s.fails (confirm_body s digest hash) t
