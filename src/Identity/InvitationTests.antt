-- ===== src/Identity/InvitationTests.antt =====
-- The theorems on invitations and on the request of a password reset at concrete inputs.
use project_management.Identity.Base64.{encode, decode}
use project_management.Identity.Fixtures.{sha256, crypto, raw, token, tables, calm}
use project_management.Identity.Password.{hash_password}
use project_management.Identity.Service.Guards.{normalize_email, normalize_name}
use project_management.Identity.Service.Invitations.Accepting.{account_of}
use project_management.Identity.Service.Invitations.Creating.{Sent, sent, create_lem}
use project_management.Identity.Service.Invitations.SingleUse.{accept_effect, accept_once}
use project_management.Identity.Service.Invitations.{
  Call, User, user_of, accept_row, accept, create,
}
use project_management.Identity.Service.ResetRequest.{Limiter, request}
use project_management.Identity.Service.ResetRequest.Superseding as Superseding
use project_management.Identity.Service.ResetRequest.Superseding.{request_lem}
use project_management.Identity.Store.Invitations.{
  has_token, get_invitation_row, accept_invitation_rows,
}
use project_management.Identity.Text.{trim_space}
use project_management.Identity.Utf8.{rune_count}
use project_management.Identity.Invitation.{is_usable}
use project_management.Identity.Store.Resets as Resets
use project_management.Identity.Store.Users.{has_email, create_user_row}
use project_management.Identity.Tables.{
  InvitationRow, Tables, find_row, in_tx, count_rows, update_rows,
}
use project_management.Identity.Token.{invitation_token_digest}
use project_management.Prelude.Outcome.{ok}
use project_management.Prelude.{
  ℕ, suc, ◌++◌, ap, sym, ◌<◌, true, false, Option, none, some, [], ◌∷◌, Bytes, codes, bytes_eq,
  replicate, ◌≡◌, ◌≢◌, ◌⊎◌, refl,
}

abbrev pub same : Bytes → Bytes
same s = s

abbrev pub call : Call
call = record {
  fails = calm;
  raw_read = some raw;
  salt_read = some (replicate 16 1);
  new_id = codes "n1";
  clock = 10;
  db_now = 11;
  send_fails = false;
}

abbrev pub invitation : InvitationRow
invitation = record {
  id = codes "i1";
  email = codes "b@b.c";
  token_hash = raw;
  invited_by = codes "u1";
  role = codes "member";
  expires_at = 100;
  accepted_at = none;
  created_at = 0;
}

abbrev pub invited_tables : Tables
invited_tables = record tables { invitations = invitation ∷ [] }

abbrev pub name : Bytes
name = codes " Budi "

abbrev pub password : Bytes
password = codes "correct horse"

abbrev accepted_tables : Tables
accepted_tables = (accept same sha256 crypto call token name password invited_tables).1

abbrev account : User
account = record {
  id = codes "n1";
  email = codes "b@b.c";
  name = codes "Budi";
  timezone = codes "Asia/Jakarta";
  role = codes "member";
}

accept_runs :
    accept same sha256 crypto call token name password invited_tables
    ≡ (ok account, accepted_tables)
unfolding accept encode bytes_eq invitation_token_digest decode hash_password normalize_name
    trim_space rune_count in_tx get_invitation_row find_row is_usable accept_invitation_rows
    count_rows update_rows create_user_row
accept_runs = refl

accept_once_example :
    ((later : Call) (other_name other : Bytes) (v : User) (t'' : Tables)
      → accept same sha256 crypto later token other_name other accepted_tables ≢ (ok v, t''))
    × ((racing : Call) (digest full_name hash : Bytes) (row : InvitationRow) (v : User)
          (t'' : Tables)
        → invitation_token_digest sha256 token ≡ ok digest
        → find_row (has_token digest) invited_tables.invitations ≡ some row
        → accept_row same racing row full_name hash accepted_tables ≢ (ok v, t''))
accept_once_example =
    accept_once same sha256 crypto call token name password invited_tables accepted_tables account
      (tt, tt) accept_runs

accept_effect_example :
    (digest full_name hash : Bytes) × (row : InvitationRow) × (invitation_token_digest sha256 token
      ≡ ok digest)
    × (normalize_name name ≡ ok full_name)
    × (hash_password crypto call.salt_read password ≡ ok hash)
    × (find_row (has_token digest) invited_tables.invitations ≡ some row)
    × (row.accepted_at ≡ none)
    × (call.clock < row.expires_at)
    × (find_row (has_email same row.email) invited_tables.users ≡ none)
    × (accepted_tables.users ≡ account_of call row full_name hash ∷ invited_tables.users)
    × (account ≡ user_of (account_of call row full_name hash))
    × (accepted_tables.sessions ≡ invited_tables.sessions)
    × (accepted_tables.resets ≡ invited_tables.resets)
accept_effect_example =
    accept_effect same sha256 crypto call token name password invited_tables accepted_tables account
      accept_runs

abbrev pub parse : Bytes → Option Bytes
parse address = some address

abbrev pub join : Bytes → Bytes → Bytes
join path last = path ++ last

abbrev pub limiter : Limiter ℕ
limiter = record { allow = λ key s. (record { room = true; wait = 0; failed = none }, suc s) }

abbrev pub new_call : Call
new_call = record call { raw_read = some (replicate 32 9) }

create_lem_example :
    let r =
      create same sha256 parse join new_call
        (codes "u1")
        (codes "c@b.c")
        (codes "viewer")
        invited_tables in
    ((sent same r.0 ≡ none) × (r.1 ≡ invited_tables))
    ⊎ Sent same sha256 parse join new_call
        (codes "u1")
        (codes "c@b.c")
        (codes "viewer")
        invited_tables
        r.1
        r.0
create_lem_example =
    create_lem same sha256 parse join new_call (codes "u1") (codes "c@b.c") (codes "viewer")
      invited_tables

request_lem_example :
    let r = request same sha256 same parse join limiter new_call (codes "a@b.c") 0 tables in
    ((r.0.sent ≡ none) × (r.1.1 ≡ tables))
    ⊎ ((address : Bytes) × (normalize_email parse (codes "a@b.c") ≡ ok address)
        × Superseding.Sent same sha256 same parse join new_call address tables r.1.1 r.0.sent)
request_lem_example =
    request_lem same sha256 same parse join limiter new_call (codes "a@b.c") 0 tables

abbrev pub other_tables : Tables
other_tables = record tables { users = [] }

pub fresh_token :
    (read : Bytes)
    → new_call.raw_read ≡ some read
    → find_row (Resets.has_token (sha256 read)) tables.resets ≡ none
unfolding find_row bytes_eq
fresh_token read e = rw (sym (ap (or_empty) e)) refl
  where
    or_empty : Option Bytes → Bytes
    or_empty none = []
    or_empty (some b) = b
