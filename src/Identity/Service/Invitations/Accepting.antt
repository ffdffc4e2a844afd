-- ===== src/Identity/Service/Invitations/Accepting.antt =====
-- What a successful `Accept` found and did, read off its statements one by one, and that it succeeds
-- once.
use project_management.Identity.Atomic.{in_tx_inv}
use project_management.Identity.Failure.{Result}
use project_management.Identity.Invitation.{is_usable}
use project_management.Identity.Password.{PasswordCrypto, hash_password}
use project_management.Identity.Service.Guards.{normalize_name}
use project_management.Identity.Service.Invitations.{
  Call, User, invitation_of, user_of, accept_row, accept_body, accept,
}
use project_management.Identity.Store.Invitations.{
  is_open_id, has_token, accepted, get_invitation_row, accept_invitation_rows,
}
use project_management.Identity.Store.Users.{has_email, create_user_row}
use project_management.Identity.Tables.{
  UserRow, InvitationRow, Tables, find_row, count_rows, update_rows,
}
use project_management.Identity.Token.{TokenError, invitation_token_digest}
use project_management.Prelude.Outcome.{Outcome, ok, err, panic}
use project_management.Prelude.{
  true, none, some, ◌∷◌, Bytes, codes, ◌≡◌, ◌≢◌, inl, inr, refl, arith, Option-cases,
}

-- The account that an invitation becomes.
abbrev pub account_of : Call → InvitationRow → (full_name hash : Bytes) → UserRow
account_of c row full_name hash = record {
  id = c.new_id;
  email = row.email;
  name = full_name;
  password_hash = hash;
  timezone = codes "Asia/Jakarta";
  role = row.role;
  created_at = c.db_now;
  updated_at = c.db_now;
  deleted_at = none;
}

module _ (lower : Bytes → Bytes) where
  -- What an acceptance that succeeds has found and done.
  pub record Accepted (c : Call) (row : InvitationRow) (full_name hash : Bytes) (t t' : Tables)
      (u : User) : Type 0 where
    pub usable : is_usable (invitation_of row) c.clock ≡ true
    pub was_open : count_rows (is_open_id c.db_now row.id) t.invitations ≢ 0
    pub free : find_row (has_email lower row.email) t.users ≡ none
    pub answer : u ≡ user_of (account_of c row full_name hash)
    pub tables_after : t' ≡ record t {
      users = account_of c row full_name hash ∷ t.users;
      invitations = update_rows (is_open_id c.db_now row.id) (accepted c.db_now) t.invitations;
    }

  pub accept_row-Accepted :
      (c : Call) (row : InvitationRow) (full_name hash : Bytes) (t t' : Tables) (u : User)
      → accept_row lower c row full_name hash t ≡ (ok u, t')
      → Accepted c row full_name hash t t' u
  unfolding accept_row accept_invitation_rows create_user_row
  accept_row-Accepted c row full_name hash t t' u e =
      elim (Option-cases (find_row (has_email lower row.email) t.users)) [
        | inr (v, taken) ↦ absurd (ground arith)
        | inl free ↦ record {
          usable = ground arith;
          was_open = ground arith;
          free = free;
          answer = ground arith;
          tables_after = ground arith;
        }
      ]

  accept_body_inv :
      (c : Call) (digest full_name hash : Bytes) (t t' : Tables) (u : User)
      → accept_body lower c digest full_name hash t ≡ (ok u, t')
      → (row : InvitationRow) × (find_row (has_token digest) t.invitations ≡ some row)
        × (accept_row lower c row full_name hash t ≡ (ok u, t'))
  unfolding accept_body get_invitation_row
  accept_body_inv c digest full_name hash t t' u e =
      elim (Option-cases (find_row (has_token digest) t.invitations)) [
        | inl missing ↦ absurd (ground arith)
        | inr (row, found) ↦ (row, found, ground arith)
      ]

  module _ (sha256 : Bytes → Bytes) (crypto : PasswordCrypto) where
    -- The call as a whole.
    pub record Succeeded (c : Call) (token name password : Bytes) (t t' : Tables) (u : User)
        : Type 0 where
      pub digest : Bytes
      pub full_name : Bytes
      pub hash : Bytes
      pub row : InvitationRow
      pub token_read : invitation_token_digest sha256 token ≡ ok digest
      pub name_kept : normalize_name name ≡ ok full_name
      pub password_hashed : hash_password crypto c.salt_read password ≡ ok hash
      pub row_found : find_row (has_token digest) t.invitations ≡ some row
      pub done : Accepted c row full_name hash t t' u

    pub accept-Succeeded :
        (c : Call) (token name password : Bytes) (t t' : Tables) (u : User)
        → accept lower sha256 crypto c token name password t ≡ (ok u, t')
        → Succeeded c token name password t t' u
    unfolding accept
    accept-Succeeded c token name password t t' u e =
        go (invitation_token_digest sha256 token) refl (normalize_name name) refl
          (hash_password crypto c.salt_read password) refl
      where
        go :
            (d : Outcome TokenError Bytes)
            → invitation_token_digest sha256 token ≡ d
            → (n : Result Bytes) → normalize_name name ≡ n
            → (h : Result Bytes) → hash_password crypto c.salt_read password ≡ h
            → Succeeded c token name password t t' u
        go (err f) de n ne h he = absurd (ground arith)
        go panic de n ne h he = absurd (ground arith)
        go (ok digest) de (err f) ne h he = absurd (ground arith)
        go (ok digest) de panic ne h he = absurd (ground arith)
        go (ok digest) de (ok full_name) ne (err f) he = absurd (ground arith)
        go (ok digest) de (ok full_name) ne panic he = absurd (ground arith)
        go (ok digest) de (ok full_name) ne (ok hash) he =
            let runs : accept_body lower c digest full_name hash t ≡ (ok u, t') =
              in_tx_inv c.fails (accept_body lower c digest full_name hash) t u t' (ground arith) in
            let (row, found, more) = accept_body_inv c digest full_name hash t t' u runs in
            record {
              digest = digest;
              full_name = full_name;
              hash = hash;
              row = row;
              token_read = de;
              name_kept = ne;
              password_hashed = he;
              row_found = found;
              done = accept_row-Accepted c row full_name hash t t' u more;
            }
