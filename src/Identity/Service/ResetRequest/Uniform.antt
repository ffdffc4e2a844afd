-- ===== src/Identity/Service/ResetRequest/Uniform.antt =====
-- What a caller of `Request` is told does not depend on whether the address has an account.
use project_management.Identity.Service.Guards.{normalize_email}
use project_management.Identity.Service.Invitations.{Call, drawn}
use project_management.Identity.Failure.{Result}
use project_management.Identity.Service.LoginGuard.{account_key}
use project_management.Identity.Service.ResetRequest.{
  Limiter, accepted, refusal, record_reset, request_found, request_body, mailed, request_drawn,
  request_allowed, request_at, request,
}
use project_management.Identity.Store.Resets.{
  has_token, create_password_reset_row, expire_open_password_resets_rows, is_open_of, expired_at,
}
use project_management.Identity.Store.Users.{has_email, get_user_by_email_row}
use project_management.Identity.Tables.{
  ResetRow, Tables, Statement, begin, commit, get_user_by_email, expire_open_password_resets,
  create_password_reset, in_tx, find_row, update_rows,
}
use project_management.Identity.Token.{new_opaque_token}
use project_management.Prelude.Outcome.{ok, err, panic}
use project_management.Prelude.{
  ℕ, Bool, false, Option, none, some, List, [], ◌∷◌, Bytes, ◌≡◌, inl, inr, refl, ◌∙◌, sym, arith,
  Option-cases,
}

-- Superseding changes no token.
find-expired :
    (digest : Bytes) (p : ResetRow → Bool) (now : ℕ) (xs : List ResetRow)
    → find_row (has_token digest) xs ≡ none
    → find_row (has_token digest) (update_rows p (expired_at now) xs) ≡ none
unfolding find_row update_rows
find-expired digest p now [] e = refl
find-expired digest p now (x ∷ xs) e = ground (arith, find-expired digest p now xs)

module _ (lower : Bytes → Bytes) (join_path : Bytes → Bytes → Bytes) where
  -- With no failure and a fresh token the transaction commits, with an account or without.
  body_commits :
      (c : Call) (address digest : Bytes) (t : Tables)
      → ((s : Statement) → c.fails s ≡ false)
      → find_row (has_token digest) t.resets ≡ none
      → (a : Bytes) × ((in_tx c.fails (request_body lower c address digest) t).0 ≡ ok a)
  unfolding in_tx request_body request_found record_reset get_user_by_email_row
      create_password_reset_row expire_open_password_resets_rows
  body_commits c address digest t up fresh =
      elim (Option-cases (find_row (has_email lower address) t.users)) [
        | inl nobody ↦
            ([], rw (up begin, up get_user_by_email, nobody, request_found, up commit) refl)
        | inr (u, found) ↦ (
          u.email,
          rw
              (
                up begin,
                up get_user_by_email,
                found,
                request_found,
                up expire_open_password_resets,
                up create_password_reset,
                find-expired digest (is_open_of c.db_now u.id) c.db_now t.resets fresh,
                up commit,
              )
              refl,
        )
      ]

  mailed_ok :
      (token : Bytes) (r : Result Bytes × Tables) (a : Bytes)
      → r.0 ≡ ok a
      → (mailed join_path token r).0.told ≡ accepted
  unfolding mailed
  mailed_ok token (ok b, t) a e = refl
  mailed_ok token (err f, t) a e = cc
  mailed_ok token (panic, t) a e = cc

module _ (lower sha256 fold : Bytes → Bytes) (parse_address : Bytes → Option Bytes)
    (join_path : Bytes → Bytes → Bytes) {S : Type 0} (limiter : Limiter S) where
  -- Nobody learns from the answer whether an address has an account: where no statement fails and the
  -- token that is drawn is fresh, the answer and what is left of the limiter are the same for any two
  -- contents of the tables.
  pub request_uniform :
      (c : Call) (email : Bytes) (s : S) (t t2 : Tables)
      → ((st : Statement) → c.fails st ≡ false)
      → ((raw : Bytes) → c.raw_read ≡ some raw → find_row (has_token (sha256 raw)) t.resets ≡ none)
      → ((raw : Bytes) → c.raw_read ≡ some raw → find_row (has_token (sha256 raw)) t2.resets ≡ none)
      → let one = request lower sha256 fold parse_address join_path limiter c email s t in
        let two = request lower sha256 fold parse_address join_path limiter c email s t2 in
        (one.0.told ≡ two.0.told) × (one.1.0 ≡ two.1.0)
  unfolding request request_at request_allowed request_drawn drawn new_opaque_token
  request_uniform c email s t t2 up fresh fresh2 = go (normalize_email parse_address email)
    where
      drawn_same :
          (address : Bytes) (r : Option Bytes)
          → c.raw_read ≡ r
          → (request_drawn lower sha256 fold parse_address join_path c address
              (drawn (new_opaque_token sha256 r))
              t).0.told
            ≡ (request_drawn lower sha256 fold parse_address join_path c address
                (drawn (new_opaque_token sha256 r))
                t2).0.told
      drawn_same address none q = refl
      drawn_same address (some raw) q =
          let (a, e) = body_commits lower join_path c address (sha256 raw) t up (fresh raw q) in
          let (b, e2) = body_commits lower join_path c address (sha256 raw) t2 up (fresh2 raw q) in
          mailed_ok lower join_path _ _ a e ∙ sym (mailed_ok lower join_path _ _ b e2)

      allowed_same :
          (address : Bytes) (w : Option ℕ)
          → (request_allowed lower sha256 fold parse_address join_path c address w t).0.told
            ≡ (request_allowed lower sha256 fold parse_address join_path c address w t2).0.told
      allowed_same address (some w) = refl
      allowed_same address none = drawn_same address c.raw_read refl

      go :
          (n : Result Bytes)
          → let one = request_at lower sha256 fold parse_address join_path limiter c n s t in
            let two = request_at lower sha256 fold parse_address join_path limiter c n s t2 in
            (one.0.told ≡ two.0.told) × (one.1.0 ≡ two.1.0)
      go (err e) = (refl, refl)
      go panic = (refl, refl)
      go (ok address) = (
        allowed_same address (refusal (limiter.allow (account_key sha256 fold address) s).0),
        refl,
      )
