-- ===== src/Identity/Service/Sessions/Recent.antt =====
-- backend/internal/modules/identity/service/session.go: how long a session can be used.
use project_management.Identity.Service.Sessions.{
  Call, Authenticated, ignore_error, session_of, drawn, digest_or_unauthenticated, renew,
  authenticate_row, issue, authenticate, revoke, revoke_by_id, revoke_others,
}
use project_management.Identity.Service.Sessions.Joined.{join_All}
use project_management.Identity.Service.Sessions.Lifecycle.{authenticate_sound}
use project_management.Identity.Session.{
  is_expired, needs_renewal, new_session_expiry, renewed_expiry,
}
use project_management.Identity.Store.Sessions.{
  has_token, has_id, belongs_to, join_users_live, create_session_row, get_session_row,
  touch_session_rows, delete_session_by_token_hash_rows, delete_session_for_user_rows,
  delete_other_sessions_for_user_rows,
}
use project_management.Identity.Tables.{
  UserRow, SessionRow, Tables, get_session_by_token_hash, touch_session, create_session,
  delete_session_by_token_hash, delete_session_for_user, delete_other_sessions_for_user, find_row,
  count_rows, delete_rows,
}
use project_management.Identity.Token.{TokenError, new_opaque_token, session_token_digest}
use project_management.Identity.Window.{Time}
use project_management.Prelude.Outcome.{Outcome, ok, err, panic}
use project_management.Prelude.{
  ◌+◌, ◌≤◌, ◌<◌, Bool, not, ◌&&◌, All, some, Bytes, ◌≡◌, ◌≢◌, ◌==◌, inl, inr, refl, sym, ap, subst,
  arith, Bool-cases, Option-cases,
}
use project_management.Identity.Service.Sessions.Windows.{
  idle, absolute, IsWithin, IsSound, CreatedAlike, Distinct-created, delete-IsSound, touch-IsWithin,
  touch-Distinct, renewed_within,
}
use project_management.Identity.Service.Sessions.Reached.{
  Reached, start, issued, used, revoked, revoked_by_id, revoked_others, elsewhere,
}

module _ (sha256 : Bytes → Bytes) (is_uuid : Bytes → Bool) (skew : Time) where
  issue-IsSound :
      (call : Call) (user_id agent : Bytes) (t : Tables)
      → call.clock ≤ call.db_now + skew
      → skew + idle ≤ absolute
      → All (λ s. s.id ≢ call.new_id) t.sessions
      → IsSound skew t.sessions
      → IsSound skew (issue sha256 call user_id agent t).1.sessions
  unfolding issue create_session_row new_session_expiry drawn
  issue-IsSound call user_id agent t ahead small fresh (h, k) =
      go (new_opaque_token sha256 call.raw_read) refl
    where
      go :
          (o : Outcome TokenError (Bytes × Bytes))
          → new_opaque_token sha256 call.raw_read ≡ o
          → IsSound skew (issue sha256 call user_id agent t).1.sessions
      go (err f) e = rw e (h, k)
      go panic e = rw e (h, k)
      go (ok pair) e = elim (Bool-cases (call.fails create_session)) [
        | inl lost ↦ rw (e, lost) (h, k)
        | inr kept ↦ elim (Option-cases (find_row (has_token pair.1) t.sessions)) [
          | inr (s, taken) ↦ rw (e, kept, taken) (h, k)
          | inl none_yet ↦ rw (e, kept, none_yet) (((omega arith, omega arith), h), (fresh, k))
        ]
      ]

  row-IsSound :
      (call : Call) (s : SessionRow) (u : UserRow) (t : Tables)
      → call.clock ≤ call.db_now + skew
      → CreatedAlike s t.sessions
      → IsSound skew t.sessions
      → IsSound skew (authenticate_row call s u t).1.sessions
  unfolding authenticate_row renew ignore_error touch_session_rows session_of
  row-IsSound call s u t early alike (h, k) =
      elim (Bool-cases (is_expired (session_of s) call.clock)) [
        | inl late ↦ rw late (h, k)
        | inr live ↦ elim (Bool-cases (needs_renewal (session_of s) call.clock)) [
          | inr young ↦ rw (live, young) (h, k)
          | inl old ↦ elim (Bool-cases (call.fails touch_session)) [
            | inl lost ↦ rw (live, old, lost) (h, k)
            | inr kept ↦
                let until = renewed_expiry (session_of s) call.clock in
                let (b, c) = renewed_within s call.clock in
                rw (live, old, kept)
                  (
                    touch-IsWithin skew s call.db_now until t.sessions alike b (omega arith) h,
                    touch-Distinct s.id call.db_now until t.sessions k,
                  )
          ]
        ]
      ]

  authenticate-IsSound :
      (call : Call) (token : Bytes) (t : Tables)
      → call.clock ≤ call.db_now + skew
      → IsSound skew t.sessions
      → IsSound skew (authenticate sha256 call token t).1.sessions
  unfolding authenticate digest_or_unauthenticated get_session_row
  authenticate-IsSound call token t early (h, k) = go (session_token_digest sha256 token) refl
    where
      go :
          (o : Outcome TokenError Bytes)
          → session_token_digest sha256 token ≡ o
          → IsSound skew (authenticate sha256 call token t).1.sessions
      go (err f) e = rw e (h, k)
      go panic e = rw e (h, k)
      go (ok digest) e = elim (Bool-cases (call.fails get_session_by_token_hash)) [
        | inl lost ↦ rw (e, lost) (h, k)
        | inr kept ↦ elim (Option-cases (join_users_live t.users t.sessions (has_token digest))) [
          | inl missing ↦ rw (e, kept, missing) (h, k)
          | inr ((s, u), found) ↦
              let alike =
                join_All (λ s. CreatedAlike s t.sessions) t.users t.sessions (has_token digest) s u
                  (Distinct-created t.sessions k) found in
              rw (e, kept, found) (row-IsSound call s u t early alike (h, k))
        ]
      ]

  revoke-IsSound :
      (call : Call) (token : Bytes) (t : Tables)
      → IsSound skew t.sessions
      → IsSound skew (revoke sha256 call token t).1.sessions
  unfolding revoke delete_session_by_token_hash_rows
  revoke-IsSound call token t h = go (session_token_digest sha256 token) refl
    where
      unchanged :
          (revoke sha256 call token t).1.sessions ≡ t.sessions
          → IsSound skew (revoke sha256 call token t).1.sessions
      unchanged same = subst (IsSound skew) (sym same) h

      go :
          (o : Outcome TokenError Bytes)
          → session_token_digest sha256 token ≡ o
          → IsSound skew (revoke sha256 call token t).1.sessions
      go (err f) e = unchanged (ground arith)
      go panic e = unchanged (ground arith)
      go (ok digest) e = elim (Bool-cases (call.fails delete_session_by_token_hash)) [
        | inl lost ↦ unchanged (ground arith)
        | inr kept ↦
            let gone : (revoke sha256 call token t).1.sessions
                ≡ delete_rows (has_token digest) t.sessions =
              ground arith in
            subst (IsSound skew) (sym gone) (delete-IsSound skew (has_token digest) t.sessions h)
      ]

  revoke_by_id-IsSound :
      (call : Call) (user_id id : Bytes) (t : Tables)
      → IsSound skew t.sessions
      → IsSound skew (revoke_by_id is_uuid call user_id id t).1.sessions
  unfolding revoke_by_id delete_session_for_user_rows
  revoke_by_id-IsSound call user_id id t h = elim (Bool-cases (is_uuid id)) [
    | inr bad ↦ rw bad h
    | inl good ↦ elim (Bool-cases (call.fails delete_session_for_user)) [
      | inl lost ↦ rw (good, lost) h
      | inr kept ↦
          let p : SessionRow → Bool = λ s. has_id id s && belongs_to user_id s in
          elim (Bool-cases (count_rows p t.sessions == 0)) [
            | inl nothing ↦ rw (good, kept, nothing) (delete-IsSound skew p t.sessions h)
            | inr gone ↦ rw (good, kept, gone) (delete-IsSound skew p t.sessions h)
          ]
    ]
  ]

  revoke_others-IsSound :
      (call : Call) (user_id id : Bytes) (t : Tables)
      → IsSound skew t.sessions
      → IsSound skew (revoke_others is_uuid call user_id id t).1.sessions
  unfolding revoke_others delete_other_sessions_for_user_rows
  revoke_others-IsSound call user_id id t h = elim (Bool-cases (is_uuid id)) [
    | inr bad ↦ rw bad h
    | inl good ↦ elim (Bool-cases (call.fails delete_other_sessions_for_user)) [
      | inl lost ↦ rw (good, lost) h
      | inr kept ↦
          rw (good, kept)
            (delete-IsSound skew (λ s. belongs_to user_id s && not (has_id id s)) t.sessions h)
    ]
  ]

  -- Every step keeps the invariant.
  Reached-IsSound :
      (t : Tables)
      → skew + idle ≤ absolute
      → Reached sha256 is_uuid skew t
      → IsSound skew t.sessions
  Reached-IsSound t small (start t0 none_yet) = rw none_yet (tt, tt)
  Reached-IsSound t small (issued t0 call user_id agent r ahead fresh) =
      issue-IsSound call user_id agent t0 ahead small fresh (Reached-IsSound t0 small r)
  Reached-IsSound t small (used t0 call token r ahead) =
      authenticate-IsSound call token t0 ahead (Reached-IsSound t0 small r)
  Reached-IsSound t small (revoked t0 call token r) =
      revoke-IsSound call token t0 (Reached-IsSound t0 small r)
  Reached-IsSound t small (revoked_by_id t0 call user_id id r) =
      revoke_by_id-IsSound call user_id id t0 (Reached-IsSound t0 small r)
  Reached-IsSound t small (revoked_others t0 call user_id id r) =
      revoke_others-IsSound call user_id id t0 (Reached-IsSound t0 small r)
  Reached-IsSound t small (elsewhere t0 t1 p r left) =
      rw left (delete-IsSound skew p t0.sessions (Reached-IsSound t0 small r))

  -- Sessions come to an end, however they are used. In tables that are reached from no session by
  -- issuing, authenticating and revoking and by deletions of other services, where the application's
  -- clock is never more than `skew` (at most 76 days) ahead of the database's and new ids are unused: a
  -- token that authenticates is that of a stored session which, by the application's clock, was
  -- created less than 90 days ago and last written as used less than 14 days and `skew` ago.
  pub authenticate-IsRecent :
      (t : Tables) (call : Call) (token : Bytes) (a : Authenticated) (t' : Tables)
      → skew + idle ≤ absolute
      → Reached sha256 is_uuid skew t
      → authenticate sha256 call token t ≡ (ok a, t')
      → (digest : Bytes) × (s : SessionRow) × (u : UserRow) × (session_token_digest sha256 token
          ≡ ok digest)
        × (join_users_live t.users t.sessions (has_token digest) ≡ some (s, u))
        × (a.session_id ≡ s.id)
        × (call.clock < s.created_at + absolute)
        × (call.clock < s.last_seen_at + (idle + skew))
  authenticate-IsRecent t call token a t' small reached e =
      let (digest, s, u, de, found, facts, early, same) =
        authenticate_sound sha256 call token t a t' e in
      let (b, c) =
        join_All (IsWithin skew) t.users t.sessions (has_token digest) s u
          (Reached-IsSound t small reached).0 found in
      (digest, s, u, de, found, ap (λ x. x.session_id) same, omega arith, omega arith)
