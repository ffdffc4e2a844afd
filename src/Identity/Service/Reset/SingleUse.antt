-- ===== src/Identity/Service/Reset/SingleUse.antt =====
-- A reset link is good for one password: a second confirmation with it fails, also one that had read
-- the row before the first one committed.
use project_management.Identity.Password.{PasswordCrypto, hash_password}
use project_management.Identity.PasswordReset.{is_usable}
use project_management.Identity.Store.Resets.{has_token, is_open, is_open_id, stamped}
use project_management.Identity.Stamp
use project_management.Identity.Stamp.{HasKeyBy}
use project_management.Identity.Store.Sessions.{belongs_to}
use project_management.Identity.Store.Users.{has_id, with_password}
use project_management.Identity.Tables.{
  UserRow, SessionRow, ResetRow, Tables, find_row, count_rows, update_rows, delete_rows,
}
use project_management.Identity.Service.Reset.{Surroundings, reset_of, confirm, confirm_row}
use project_management.Identity.Service.Reset.Rows.{
  Succeeded, confirm-Succeeded, confirm_row-Confirmed,
}
use project_management.Identity.Window.{is_set}
use project_management.Identity.Token.{password_reset_token_digest}
use project_management.Prelude.Outcome.{ok}
use project_management.Prelude.{
  ℕ, ◌<◌, true, false, Option, none, some, List, [], ◌∷◌, Bytes, ◌≡◌, ◌≢◌, inl, inr, refl, ◌∙◌, sym,
  ap, arith, All, Bool-cases, bytes_eq_iff,
}

-- The primary key of password_resets.
abbrev pub HasKey : List ResetRow → Type 0
HasKey = HasKeyBy (λ r. r.id)

stamp_hits :
    (digest : Bytes) (now : ℕ) (xs : List ResetRow) (row : ResetRow)
    → HasKey xs
    → find_row (has_token digest) xs ≡ some row
    → count_rows (is_open_id now row.id) xs ≢ 0
    → find_row (has_token digest) (update_rows (is_open_id now row.id) (stamped now) xs)
      ≡ some (stamped now row)
stamp_hits digest now xs row k e c =
    Stamp.stamp_hits (λ r. r.id) is_open stamped (λ n r. refl) (λ n l r. refl) (has_token digest)
      now xs row (λ r. refl) k e c

stamp_closes :
    (now later : ℕ) (i : Bytes) (xs : List ResetRow)
    → HasKey xs
    → count_rows (is_open_id now i) xs ≢ 0
    → count_rows (is_open_id later i) (update_rows (is_open_id now i) (stamped now) xs) ≡ 0
stamp_closes = Stamp.stamp_closes (λ r. r.id) is_open stamped (λ n r. refl) (λ n l r. refl)

-- A row that carries a stamp is not usable.
stamped_not_usable :
    (now clock : ℕ) (r q : ResetRow)
    → some (stamped now r) ≡ some q
    → is_usable (reset_of q) clock ≢ true
unfolding is_usable reset_of
stamped_not_usable now clock r q e =
    let used : some now ≡ q.used_at = ap (used_or q) e in ground arith
  where
    used_or : ResetRow → Option ResetRow → Option ℕ
    used_or q none = q.used_at
    used_or q (some y) = y.used_at

no_sessions_left :
    (user_id : Bytes) (xs : List SessionRow)
    → All (λ x. x.user_id ≢ user_id) (delete_rows (belongs_to user_id) xs)
unfolding delete_rows
no_sessions_left user_id [] = tt
no_sessions_left user_id (x ∷ xs) = elim (Bool-cases (belongs_to user_id x)) [
  | inl own ↦ rw own (no_sessions_left user_id xs)
  | inr other ↦
      rw other (λ e. cc (other, (bytes_eq_iff x.user_id user_id).1 e), no_sessions_left user_id xs)
]

found_id :
    (user_id : Bytes) (xs : List UserRow) (u : UserRow)
    → find_row (has_id user_id) xs ≡ some u
    → u.id ≡ user_id
unfolding find_row
found_id user_id [] u e = cc
found_id user_id (x ∷ xs) u e = ground (arith, bytes_eq_iff x.id user_id, found_id user_id xs u)

module _ (sha256 : Bytes → Bytes) (crypto : PasswordCrypto) where
  -- If a confirmation succeeds, its token led to a row that was not used and, by the application's
  -- clock, not past its deadline. The row's account, if it is not masked, has been given the hash
  -- of the new password, and no session is left of it; all other accounts, the sessions of others
  -- and the invitations are as they were.
  pub confirm_effect :
      (s : Surroundings) (token password : Bytes) (t t' : Tables)
      → confirm sha256 crypto s token password t ≡ (ok tt, t')
      → (digest hash : Bytes) × (row : ResetRow) × (password_reset_token_digest sha256 token
          ≡ ok digest)
        × (hash_password crypto s.salt_read password ≡ ok hash)
        × (find_row (has_token digest) t.resets ≡ some row)
        × (row.used_at ≡ none)
        × (s.clock < row.expires_at)
        × (t'.users ≡ update_rows (has_id row.user_id) (with_password s.db_now hash) t.users)
        × (t'.sessions ≡ delete_rows (belongs_to row.user_id) t.sessions)
        × All (λ x. x.user_id ≢ row.user_id) t'.sessions
        × (t'.invitations ≡ t.invitations)
  unfolding is_usable reset_of
  confirm_effect s token password t t' e =
      let r = confirm-Succeeded sha256 crypto s token password t t' e in
      let c = r.confirmed in
      let same = found_id r.row.user_id _ c.user c.user_found in
      let ended : t'.sessions ≡ delete_rows (belongs_to r.row.user_id) t.sessions =
        ap (λ (x : Tables). x.sessions) c.tables_after
        ∙ ap (λ i. delete_rows (belongs_to i) t.sessions) same in
      (
        r.digest,
        r.hash,
        r.row,
        r.token_read,
        r.password_hashed,
        r.row_found,
        unused r.row.used_at (ground arith),
        ground arith,
        ap (λ (x : Tables). x.users) c.tables_after,
        ended,
        rw ended (no_sessions_left r.row.user_id t.sessions),
        ap (λ (x : Tables). x.invitations) c.tables_after,
      )
    where
      unused : (o : Option ℕ) → is_set o ≡ false → o ≡ none
      unused none h = refl
      unused (some n) h = cc

  -- Where the ids of the stored resets are unique: once a confirmation has succeeded, no later one
  -- with the same token does, whatever the password, the clocks and the failures; nor does one
  -- that had read the token's row before the first one committed and goes on from there.
  pub confirm_once :
      (s : Surroundings) (token password : Bytes) (t t' : Tables)
      → HasKey t.resets
      → confirm sha256 crypto s token password t ≡ (ok tt, t')
      → ((later : Surroundings) (other : Bytes) (t'' : Tables)
          → confirm sha256 crypto later token other t' ≢ (ok tt, t''))
        × ((racing : Surroundings) (digest hash : Bytes) (row : ResetRow) (t'' : Tables)
            → password_reset_token_digest sha256 token ≡ ok digest
            → find_row (has_token digest) t.resets ≡ some row
            → confirm_row racing row hash t' ≢ (ok tt, t''))
  unfolding is_usable reset_of
  confirm_once s token password t t' k e = (again, race)
    where
      r : Succeeded sha256 crypto s token password t t'
      r = confirm-Succeeded sha256 crypto s token password t t' e

      resets_after :
          t'.resets ≡ update_rows (is_open_id s.db_now r.row.id) (stamped s.db_now) t.resets
      resets_after = ap (λ (x : Tables). x.resets) r.confirmed.tables_after

      stamped_row : find_row (has_token r.digest) t'.resets ≡ some (stamped s.db_now r.row)
      stamped_row =
          rw resets_after
            (stamp_hits r.digest s.db_now t.resets r.row k r.row_found r.confirmed.was_open)

      again :
          (later : Surroundings) (other : Bytes) (t'' : Tables)
          → confirm sha256 crypto later token other t' ≢ (ok tt, t'')
      again later other t'' f =
          let q = confirm-Succeeded sha256 crypto later token other t' t'' f in
          let same : r.digest ≡ q.digest = cc (r.token_read, q.token_read) in
          let row : some (stamped s.db_now r.row) ≡ some q.row =
            sym stamped_row ∙ rw same q.row_found in
          stamped_not_usable s.db_now later.clock r.row q.row row q.confirmed.usable

      id_or : Bytes → Option ResetRow → Bytes
      id_or i none = i
      id_or i (some y) = y.id

      race :
          (racing : Surroundings) (digest hash : Bytes) (row : ResetRow) (t'' : Tables)
          → password_reset_token_digest sha256 token ≡ ok digest
          → find_row (has_token digest) t.resets ≡ some row
          → confirm_row racing row hash t' ≢ (ok tt, t'')
      race racing digest hash row t'' de found f =
          let same : r.digest ≡ digest = cc (r.token_read, de) in
          let same_row : some r.row ≡ some row = sym r.row_found ∙ rw same found in
          let id : r.row.id ≡ row.id = ap (id_or row.id) same_row in
          (confirm_row-Confirmed racing row hash t' t'' f).was_open (
            rw (sym id, resets_after)
              (stamp_closes s.db_now racing.db_now r.row.id t.resets k r.confirmed.was_open))
