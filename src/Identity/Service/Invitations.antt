-- ===== src/Identity/Service/Invitations.antt =====
-- backend/internal/modules/identity/service/invitation.go: an invitation is sent, and turned into an
-- account once. Parameters: SQL's `lower`, net/mail's `ParseAddress` (the address that it finds, or
-- nothing), and net/url's `JoinPath` of the base URL. Whether the mail server takes the message is
-- part of what a call finds around it. Logging is left out.
pub mod Accepting
pub mod SingleUse
pub mod Creating
use project_management.Authz.{parse_role, role_owner}
use project_management.Identity.Failure.{
  Failure, Result, rescue, is_no_rows, is_unique_violation, random_failed, invalid_email,
  invalid_name, role_not_invitable, email_taken, invitation_not_usable,
}
use project_management.Identity.Invitation.{
  Invitation, invitation_window, new_invitation_expiry, is_usable,
}
use project_management.Mail.{Message}
use project_management.Identity.Password.{PasswordCrypto, hash_password, decimal}
use project_management.Identity.Service.Guards.{normalize_email, normalize_name, check_invitable}
use project_management.Identity.Store.Invitations.{
  create_invitation_row, get_invitation_row, accept_invitation_rows, expire_open_invitations_rows,
}
use project_management.Identity.Store.Users.{get_user_by_email_row, create_user_row}
use project_management.Identity.Tables.{
  UserRow, InvitationRow, Tables, Fails, M, ◌>>=◌, return, fail, lift, with_error, in_tx,
}
use project_management.Identity.Text.{trim_space}
use project_management.Identity.Token.{TokenError, new_opaque_token, invitation_token_digest}
use project_management.Identity.Utf8.{rune_count}
use project_management.Identity.Window.{Time, hour}
use project_management.Prelude.Outcome.{Outcome, ok, err, panic}
use project_management.Prelude.{
  ℕ, ◌/◌, Bool, not, Option, none, some, List, [], ◌∷◌, ◌++◌, Bytes, codes, length, bytes_eq, ltb,
  ◌==◌, if◌then◌else◌,
}

-- What one call finds around it.
pub record Call : Type 0 where
  pub fails : Fails
  pub raw_read : Option Bytes
  pub salt_read : Option Bytes
  pub new_id : Bytes
  pub clock : Time
  pub db_now : Time
  pub send_fails : Bool

pub record Invited : Type 0 where
  pub id : Bytes
  pub email : Bytes
  pub role : Bytes
  pub expires_at : Time

pub record User : Type 0 where
  pub id : Bytes
  pub email : Bytes
  pub name : Bytes
  pub timezone : Bytes
  pub role : Bytes

-- The answer of `Create`: an error alone, the invitation with the message that was taken, or the
-- invitation with ErrUndeliverable.
pub data Created : Type 0 where
  refused : Failure → Created
  crashed : Created
  delivered undelivered : Invited → Message → Created

-- The row as the domain sees it; `timestamp` turns the nullable column into a pointer.
pub invitation_of : InvitationRow → Invitation
invitation_of row = record {
  id = row.id;
  email = row.email;
  role = row.role;
  invited_by = row.invited_by;
  created_at = row.created_at;
  expires_at = row.expires_at;
  accepted_at = row.accepted_at;
}

pub invited_of : InvitationRow → Invited
invited_of row = record {
  id = row.id;
  email = row.email;
  role = row.role;
  expires_at = row.expires_at;
}

unfoldable pub user_of : UserRow → User
user_of row = record {
  id = row.id;
  email = row.email;
  name = row.name;
  timezone = row.timezone;
  role = row.role;
}

unfoldable pub drawn : Outcome TokenError (Bytes × Bytes) → Result (Bytes × Bytes)
drawn (ok pair) = ok pair
drawn (err e) = err random_failed
drawn panic = panic

pub digest_or_refuse : Outcome TokenError Bytes → Result Bytes
digest_or_refuse (ok digest) = ok digest
digest_or_refuse (err e) = err invitation_not_usable
digest_or_refuse panic = panic

-- The lines of a text.
unfoldable pub lines : List Bytes → Bytes
lines [] = []
lines (l ∷ []) = l
lines (l ∷ m ∷ ms) = l ++ (b'\n' ∷ lines (m ∷ ms))

pub message : (join_path : Bytes → Bytes → Bytes) → (address token : Bytes) → Message
unfolding lines decimal
message join_path address token = record {
  to = address;
  subject = codes "Anda diundang ke Project Management";
  text = lines (
      codes "Halo,"
      ∷ []
      ∷ codes "Akun Anda sudah disiapkan. Buka tautan di bawah untuk memilih sandi:"
      ∷ []
      ∷ join_path (codes "invite") token
      ∷ []
      ∷ (codes "Tautan ini berlaku "
          ++ (decimal 10 (invitation_window / hour / 24)
              ++ codes " hari dan hanya bisa dipakai sekali."))
      ∷ codes "Kalau Anda tidak mengharapkan undangan ini, abaikan saja pesannya."
      ∷ []);
}

-- The one account of an address refuses the invitation; no account is what is wanted.
pub no_account : Result UserRow × Tables → Result (Unit {0}) × Tables
no_account (ok u, t) = (err email_taken, t)
no_account (err e, t) = (if is_no_rows e then ok tt else err e, t)
no_account (panic, t) = (panic, t)

module _ (lower : Bytes → Bytes) where
  -- The function that runs in the transaction of `Create`.
  pub create_body : Call → (invited_by address role digest : Bytes) → M InvitationRow
  unfolding no_account
  create_body c invited_by address role digest = do
    free ← λ t. no_account (get_user_by_email_row lower c.fails address t)
    superseded ← expire_open_invitations_rows lower c.fails c.db_now address
    create_invitation_row c.fails c.new_id c.db_now address digest invited_by role
        (new_invitation_expiry c.clock)

  -- From the stamp on: the row was usable when it was read.
  pub accept_stamp : Call → Invitation → (full_name hash : Bytes) → M User
  unfolding user_of
  accept_stamp c invitation full_name hash = do
    stamped ← accept_invitation_rows c.fails c.db_now invitation.id
    if stamped == 0 then fail invitation_not_usable else (do
      created ← with_error (rescue is_unique_violation email_taken) (
          create_user_row lower c.fails c.new_id c.db_now invitation.email full_name hash
            invitation.role)
      return (user_of created))

  -- From the read on.
  pub accept_row : Call → InvitationRow → (full_name hash : Bytes) → M User
  unfolding invitation_of accept_stamp
  accept_row c row full_name hash =
      let invitation = invitation_of row in
      if not (is_usable invitation c.clock)
      then fail invitation_not_usable
      else accept_stamp c invitation full_name hash

  -- The function that runs in the transaction of `Accept`.
  pub accept_body : Call → (digest full_name hash : Bytes) → M User
  unfolding accept_row
  accept_body c digest full_name hash = do
    row ← with_error (rescue is_no_rows invitation_not_usable) (get_invitation_row c.fails digest)
    accept_row c row full_name hash

  module _ (sha256 : Bytes → Bytes) where
    unfoldable pub accept : PasswordCrypto → Call → (token name password : Bytes) → M User
    unfolding digest_or_refuse accept_body
    accept crypto c token name password = do
      digest ← lift (digest_or_refuse (invitation_token_digest sha256 token))
      full_name ← lift (normalize_name name)
      hash ← lift (hash_password crypto c.salt_read password)
      in_tx c.fails (accept_body c digest full_name hash)

    module _ (parse_address : Bytes → Option Bytes) (join_path : Bytes → Bytes → Bytes) where
      -- After the transaction the message is sent.
      pub deliver :
          Call → (address token : Bytes) → Result InvitationRow × Tables → Created × Tables
      unfolding message invited_of
      deliver c address token (ok row, t) =
          let m = message join_path address token in
          (if c.send_fails then undelivered (invited_of row) m else delivered (invited_of row) m, t)
      deliver c address token (err e, t) = (refused e, t)
      deliver c address token (panic, t) = (crashed, t)

      pub create_drawn :
          Call → (invited_by address role : Bytes) → Bytes × Bytes → Tables → Created × Tables
      unfolding deliver create_body
      create_drawn c invited_by address role (token, digest) t =
          deliver c address token (in_tx c.fails (create_body c invited_by address role digest) t)

      -- The guards before the transaction: the address, the role and the token.
      pub prepare : Call → (email role : Bytes) → M (Bytes × (Bytes × Bytes))
      unfolding drawn
      prepare c email role = do
        address ← lift (normalize_email parse_address email)
        invitable ← lift (check_invitable role)
        pair ← lift (drawn (new_opaque_token sha256 c.raw_read))
        return (address, pair)

      pub create_prepared :
          Call
          → (invited_by role : Bytes) → Result (Bytes × (Bytes × Bytes)) × Tables
          → Created × Tables
      unfolding create_drawn
      create_prepared c invited_by role (ok (address, pair), t) =
          create_drawn c invited_by address role pair t
      create_prepared c invited_by role (err e, t) = (refused e, t)
      create_prepared c invited_by role (panic, t) = (crashed, t)

      unfoldable pub create : Call → (invited_by email role : Bytes) → Tables → Created × Tables
      unfolding prepare create_prepared
      create c invited_by email role t = create_prepared c invited_by role (prepare c email role t)
