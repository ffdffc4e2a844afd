-- ===== src/Identity/Service/Invitations/SingleUse.antt =====
-- An invitation becomes one account, and an acceptance that fails changes nothing.
use project_management.Identity.Service.Invitations.Accepting.{
  account_of, accept_row-Accepted, Succeeded, accept-Succeeded,
}
use project_management.Identity.Invitation.{is_usable}
use project_management.Identity.Password.{PasswordCrypto, hash_password}
use project_management.Identity.Service.Guards.{normalize_name}
use project_management.Identity.Service.Invitations.{
  Call, User, invitation_of, user_of, accept_row, accept,
}
use project_management.Identity.Stamp
use project_management.Identity.Stamp.{HasKeyBy}
use project_management.Identity.Store.Invitations.{is_open, is_open_id, has_token, accepted}
use project_management.Identity.Store.Users.{has_email}
use project_management.Identity.Tables.{InvitationRow, Tables, find_row, update_rows}
use project_management.Identity.Token.{invitation_token_digest}
use project_management.Identity.Window.{is_set}
use project_management.Prelude.Outcome.{ok}
use project_management.Prelude.{
  ℕ, ◌<◌, true, false, Option, none, some, List, ◌∷◌, Bytes, ◌≡◌, ◌≢◌, refl, ◌∙◌, sym, ap, arith,
}

-- The primary key of invitations.
abbrev pub HasKey : List InvitationRow → Type 0
HasKey = HasKeyBy (λ r. r.id)

-- A row that carries a stamp is not usable.
accepted_not_usable :
    (now clock : ℕ) (r q : InvitationRow)
    → some (accepted now r) ≡ some q
    → is_usable (invitation_of q) clock ≢ true
unfolding is_usable invitation_of
accepted_not_usable now clock r q e =
    let used : some now ≡ q.accepted_at = ap (accepted_or q) e in ground arith
  where
    accepted_or : InvitationRow → Option InvitationRow → Option ℕ
    accepted_or q none = q.accepted_at
    accepted_or q (some y) = y.accepted_at

module _ (lower sha256 : Bytes → Bytes) (crypto : PasswordCrypto) where
  -- If an acceptance succeeds, its token led to an invitation that was not accepted and, by the
  -- application's clock, not past its deadline, and no live account had the invitation's address. The
  -- one account that is added has the address and the role of the invitation, whatever the request
  -- said, the trimmed name and the hash of the password; sessions and resets are as they were.
  pub accept_effect :
      (c : Call) (token name password : Bytes) (t t' : Tables) (u : User)
      → accept lower sha256 crypto c token name password t ≡ (ok u, t')
      → (digest full_name hash : Bytes) × (row : InvitationRow) × (invitation_token_digest sha256
            token
          ≡ ok digest)
        × (normalize_name name ≡ ok full_name)
        × (hash_password crypto c.salt_read password ≡ ok hash)
        × (find_row (has_token digest) t.invitations ≡ some row)
        × (row.accepted_at ≡ none)
        × (c.clock < row.expires_at)
        × (find_row (has_email lower row.email) t.users ≡ none)
        × (t'.users ≡ account_of c row full_name hash ∷ t.users)
        × (u ≡ user_of (account_of c row full_name hash))
        × (t'.sessions ≡ t.sessions)
        × (t'.resets ≡ t.resets)
  unfolding is_usable invitation_of
  accept_effect c token name password t t' u e =
      let r = accept-Succeeded lower sha256 crypto c token name password t t' u e in
      (
        r.digest,
        r.full_name,
        r.hash,
        r.row,
        r.token_read,
        r.name_kept,
        r.password_hashed,
        r.row_found,
        open_still r.row.accepted_at (ground arith),
        ground arith,
        r.done.free,
        ap (λ (x : Tables). x.users) r.done.tables_after,
        r.done.answer,
        ap (λ (x : Tables). x.sessions) r.done.tables_after,
        ap (λ (x : Tables). x.resets) r.done.tables_after,
      )
    where
      open_still : (o : Option ℕ) → is_set o ≡ false → o ≡ none
      open_still none h = refl
      open_still (some n) h = cc

  -- Where the ids of the stored invitations are unique: once an acceptance has succeeded, no later
  -- one with the same token does, whatever the name, the password, the clocks and the failures; nor
  -- does one that had read the invitation before the first one committed and goes on from there.
  pub accept_once :
      (c : Call) (token name password : Bytes) (t t' : Tables) (u : User)
      → HasKey t.invitations
      → accept lower sha256 crypto c token name password t ≡ (ok u, t')
      → ((later : Call) (other_name other : Bytes) (v : User) (t'' : Tables)
          → accept lower sha256 crypto later token other_name other t' ≢ (ok v, t''))
        × ((racing : Call) (digest full_name hash : Bytes) (row : InvitationRow) (v : User)
              (t'' : Tables)
            → invitation_token_digest sha256 token ≡ ok digest
            → find_row (has_token digest) t.invitations ≡ some row
            → accept_row lower racing row full_name hash t' ≢ (ok v, t''))
  accept_once c token name password t t' u k e = (again, race)
    where
      r : Succeeded lower sha256 crypto c token name password t t' u
      r = accept-Succeeded lower sha256 crypto c token name password t t' u e

      invitations_after :
          t'.invitations
          ≡ update_rows (is_open_id c.db_now r.row.id) (accepted c.db_now) t.invitations
      invitations_after = ap (λ (x : Tables). x.invitations) r.done.tables_after

      stamped_row : find_row (has_token r.digest) t'.invitations ≡ some (accepted c.db_now r.row)
      stamped_row = rw invitations_after (
          Stamp.stamp_hits (λ x. x.id) is_open accepted (λ n x. refl) (λ n l x. refl)
            (has_token r.digest) c.db_now t.invitations r.row (λ x. refl) k r.row_found
            r.done.was_open)

      id_or : Bytes → Option InvitationRow → Bytes
      id_or i none = i
      id_or i (some y) = y.id

      again :
          (later : Call) (other_name other : Bytes) (v : User) (t'' : Tables)
          → accept lower sha256 crypto later token other_name other t' ≢ (ok v, t'')
      again later other_name other v t'' f =
          let q = accept-Succeeded lower sha256 crypto later token other_name other t' t'' v f in
          let same : r.digest ≡ q.digest = cc (r.token_read, q.token_read) in
          let row : some (accepted c.db_now r.row) ≡ some q.row =
            sym stamped_row ∙ rw same q.row_found in
          accepted_not_usable c.db_now later.clock r.row q.row row q.done.usable

      race :
          (racing : Call) (digest full_name hash : Bytes) (row : InvitationRow) (v : User)
          (t'' : Tables)
          → invitation_token_digest sha256 token ≡ ok digest
          → find_row (has_token digest) t.invitations ≡ some row
          → accept_row lower racing row full_name hash t' ≢ (ok v, t'')
      race racing digest full_name hash row v t'' de found f =
          let same : r.digest ≡ digest = cc (r.token_read, de) in
          let same_row : some r.row ≡ some row = sym r.row_found ∙ rw same found in
          let id : r.row.id ≡ row.id = ap (id_or row.id) same_row in
          (accept_row-Accepted lower racing row full_name hash t' t'' v f).was_open (
            rw (sym id, invitations_after)
              (Stamp.stamp_closes (λ x. x.id) is_open accepted (λ n x. refl) (λ n l x. refl)
                c.db_now racing.db_now r.row.id t.invitations k r.done.was_open))
