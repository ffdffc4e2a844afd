-- ===== src/Identity/Service/Sessions/Lifecycle.antt =====
-- A session from its token to its end.
use project_management.Identity.Base64.{AreBytes}
use project_management.Identity.Token.RoundTrip.{new_opaque_token-digest}
use project_management.Identity.Failure.{Failure, Result, unauthenticated}
use project_management.Identity.Service.Sessions.{
  Call, Authenticated, clean_user_agent, session_of, renew, authenticate_row, issue, authenticate,
  revoke,
}
use project_management.Identity.Service.Sessions.Joined.{
  IsLiveSession, join_found, join_none, join_head,
}
use project_management.Identity.Session.{
  Session, is_expired, needs_renewal, new_session_expiry, session_idle_window,
}
use project_management.Identity.Store.Sessions.{
  has_token, live_owner, join_users_live, create_session_row, get_session_row, touch_session_rows,
  delete_session_by_token_hash_rows,
}
use project_management.Identity.Tables.{
  UserRow, SessionRow, Tables, get_session_by_token_hash, touch_session, return, then_run, find_row,
  delete_rows,
}
use project_management.Identity.Token.{
  TokenError, new_opaque_token, session_token_digest, opaque_token_bytes,
}
use project_management.Prelude.Outcome.{Outcome, ok, err, panic}
use project_management.Prelude.{
  ◌<◌, true, false, none, some, ◌∷◌, Bytes, length, ◌≡◌, ◌≢◌, inl, inr, refl, ◌∙◌, sym, ap, subst,
  ◌+◌, arith, Option-cases, Bool-cases,
}

-- What a request learns of a session and its account.
abbrev pub identity_of : SessionRow → UserRow → Authenticated
identity_of s u = record {
  session_id = s.id;
  user_id = s.user_id;
  email = u.email;
  name = u.name;
  timezone = u.timezone;
  role = u.role;
}

-- A renewal never refuses, also if its statement fails.
renew_ok : (call : Call) (session : Session) (t : Tables) → (renew call session t).0 ≡ ok tt
unfolding renew touch_session_rows
renew_ok call session t = elim (Bool-cases (needs_renewal session call.clock)) [
  | inr fresh ↦ rw fresh refl
  | inl old ↦ elim (Bool-cases (call.fails touch_session)) [
    | inl lost ↦ rw (old, lost) refl
    | inr kept ↦ rw (old, kept) refl
  ]
]

authenticate_row_live :
    (call : Call) (s : SessionRow) (u : UserRow) (t : Tables)
    → is_expired (session_of s) call.clock ≡ false
    → (authenticate_row call s u t).0 ≡ ok (identity_of s u)
unfolding authenticate_row
authenticate_row_live call s u t live =
    rw live (go (renew call (session_of s) t) (renew_ok call (session_of s) t))
  where
    go :
        (r : Result (Unit {0}) × Tables)
        → r.0 ≡ ok tt
        → (then_run r (λ renewed. return (identity_of s u))).0 ≡ ok (identity_of s u)
    go (ok a, t') e = refl
    go (err f, t') e = cc
    go (panic, t') e = cc

authenticate_row_late :
    (call : Call) (s : SessionRow) (u : UserRow) (t : Tables)
    → is_expired (session_of s) call.clock ≡ true
    → authenticate_row call s u t ≡ (err unauthenticated, t)
unfolding authenticate_row
authenticate_row_late call s u t late = rw late refl

-- The row that is inserted.
abbrev pub issued_row : Call → (user_id agent digest : Bytes) → SessionRow
issued_row call user_id agent digest = record {
  id = call.new_id;
  user_id = user_id;
  token_hash = digest;
  user_agent = clean_user_agent agent;
  created_at = call.db_now;
  last_seen_at = call.db_now;
  expires_at = new_session_expiry call.clock;
}

module _ (sha256 : Bytes → Bytes) where
  -- The token's digest, the session that it leads to, and what is learnt of it.
  abbrev pub IsSignedIn : Call → Bytes → Tables → Authenticated → Type 0
  IsSignedIn call token t a =
      (digest : Bytes) × (s : SessionRow) × (u : UserRow) × (session_token_digest sha256 token
        ≡ ok digest)
      × (join_users_live t.users t.sessions (has_token digest) ≡ some (s, u))
      × IsLiveSession t.users digest (some (s, u))
      × (call.clock < s.expires_at)
      × (a ≡ identity_of s u)

  signed_in :
      (call : Call) (token digest : Bytes) (s : SessionRow) (u : UserRow) (t : Tables)
      (a : Authenticated) (t' : Tables)
      → session_token_digest sha256 token ≡ ok digest
      → join_users_live t.users t.sessions (has_token digest) ≡ some (s, u)
      → authenticate_row call s u t ≡ (ok a, t')
      → IsSignedIn call token t a
  unfolding is_expired session_of
  signed_in call token digest s u t a t' de found runs =
      let facts =
        subst (IsLiveSession t.users digest) found (join_found t.users t.sessions digest) in
      elim (Bool-cases (is_expired (session_of s) call.clock)) [
        | inl late ↦
            absurd (ok_ne_err (ap (λ r. r.0) (sym runs ∙ authenticate_row_late call s u t late)))
        | inr live ↦
            let same = ap (λ r. r.0) (sym runs) ∙ authenticate_row_live call s u t live in
            (digest, s, u, de, found, facts, ground arith, ok_injective same)
      ]
    where
      ok_ne_err : {A : Type 0} {b : A} {f : Failure} → ok b ≢ err f
      ok_ne_err e = cc

      ok_injective : {A : Type 0} {b c : A} → ◌≡◌ {A = Result A} (ok b) (ok c) → b ≡ c
      ok_injective e = cc

  -- A call that authenticates had a token whose digest is the one of a stored session, the first one
  -- that joins with an account. That account is not masked, owns the session, and its
  -- identity is what is returned; by the application's clock the session is not past its deadline.
  pub authenticate_sound :
      (call : Call) (token : Bytes) (t : Tables) (a : Authenticated) (t' : Tables)
      → authenticate sha256 call token t ≡ (ok a, t')
      → IsSignedIn call token t a
  unfolding authenticate get_session_row
  authenticate_sound call token t a t' e = go (session_token_digest sha256 token) refl
    where
      go :
          (d : Outcome TokenError Bytes)
          → session_token_digest sha256 token ≡ d
          → IsSignedIn call token t a
      go (err f) de = absurd (ground arith)
      go panic de = absurd (ground arith)
      go (ok digest) de =
          elim (Option-cases (join_users_live t.users t.sessions (has_token digest))) [
            | inl missing ↦ absurd (ground arith)
            | inr ((s, u), found) ↦ signed_in call token digest s u t a t' de found (ground arith)
          ]

  -- A session that was revoked is over: after a successful call with its token, no call with that
  -- token authenticates, whatever the clocks and the failures.
  pub revoke_ends :
      (call : Call) (token : Bytes) (t t' : Tables)
      → revoke sha256 call token t ≡ (ok tt, t')
      → (later : Call) (a : Authenticated) (t'' : Tables)
      → authenticate sha256 later token t' ≢ (ok a, t'')
  unfolding revoke delete_session_by_token_hash_rows
  revoke_ends call token t t' e later a t'' f =
      let (digest, s, u, de, found, facts, early, same) =
        authenticate_sound later token t' a t'' f in
      let gone : t'.sessions ≡ delete_rows (has_token digest) t.sessions = ground arith in
      let none_left = join_none t'.users t.sessions digest in
      some_ne_none (sym found ∙ rw gone none_left)
    where
      some_ne_none : {A : Type 0} {x : A} → some x ≢ none
      some_ne_none q = cc

  -- What a call of `issue` that succeeds has done.
  pub issue_inv :
      (call : Call) (user_id agent raw token : Bytes) (session : Session) (t t' : Tables)
      → call.raw_read ≡ some raw
      → issue sha256 call user_id agent t ≡ (ok (token, session), t')
      → let row = issued_row call user_id agent (sha256 raw) in
        (new_opaque_token sha256 (some raw) ≡ ok (token, sha256 raw))
        × (session ≡ session_of row)
        × (t' ≡ record t { sessions = row ∷ t.sessions })
  unfolding issue new_opaque_token create_session_row
  issue_inv call user_id agent raw token session t t' rd e =
      elim (Option-cases (find_row (has_token (sha256 raw)) t.sessions)) [
        | inl fresh ↦ (ground arith, ground arith, ground arith)
        | inr (s, taken) ↦ absurd (ground arith)
      ]

  -- A token that was issued signs in: with 32 bytes drawn for a live account, a successful `issue`
  -- gives a session in the account's name with a deadline 14 days ahead, and in the tables that it
  -- leaves the token authenticates as that account, as long as the deadline has not passed and the
  -- read does not fail, whether or not the deadline could be renewed.
  pub issue-authenticate :
      (call later : Call) (user_id agent raw token : Bytes) (session : Session) (t t' : Tables)
      (u : UserRow)
      → call.raw_read ≡ some raw
      → length raw ≡ opaque_token_bytes
      → AreBytes raw
      → issue sha256 call user_id agent t ≡ (ok (token, session), t')
      → find_row (live_owner user_id) t.users ≡ some u
      → later.fails get_session_by_token_hash ≡ false
      → later.clock < call.clock + session_idle_window
      → (session.user_id ≡ user_id)
        × (session.expires_at ≡ call.clock + session_idle_window)
        × ((authenticate sha256 later token t').0
            ≡ ok (record {
              session_id = session.id;
              user_id = user_id;
              email = u.email;
              name = u.name;
              timezone = u.timezone;
              role = u.role;
            }))
  unfolding authenticate get_session_row new_session_expiry session_of is_expired
  issue-authenticate call later user_id agent raw token session t t' u rd l b e live up early =
      let row = issued_row call user_id agent (sha256 raw) in
      let (drawn_as, of_row, stored) = issue_inv call user_id agent raw token session t t' rd e in
      let (read, inv, res) = new_opaque_token-digest sha256 raw token (sha256 raw) l b drawn_as in
      let found = join_head t.users t.sessions row u live in
      let after : Tables = record t { sessions = row ∷ t.sessions } in
      let runs = authenticate_row_live later row u after (ground arith) in
      (ground arith, ground arith, rw (read, stored, up, found, of_row) runs)
