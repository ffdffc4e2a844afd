-- ===== src/Identity/Handler/Invitations/Welcome.antt =====
-- Redeeming a link: the cookie of the answer is a session of the new account.
use project_management.Httpx.Errors.{FieldError}
use project_management.Identity.Failure.{Failure, Result, invitation_not_usable}
use project_management.Identity.Handler.Invitations.{
  Parts, Acceptance, session_reply, accepted_reply, accept_checked, write_accept_error,
  accept_invitation,
}
use project_management.Identity.Handler.Reply.{untouched, issued, account, Reply, required}
use project_management.Identity.Service.Invitations as Service
use project_management.Identity.Service.Invitations.{Call, User, user_of}
use project_management.Identity.Service.Invitations.Accepting.{account_of}
use project_management.Identity.Service.Invitations.SingleUse.{accept_effect}
use project_management.Identity.Service.Sessions as Sessions
use project_management.Identity.Service.Sessions.{session_of}
use project_management.Identity.Service.Sessions.Lifecycle.{issue_inv, issue-authenticate}
use project_management.Identity.Session.{Session, new_session_expiry}
use project_management.Identity.Store.Sessions.{live_owner}
use project_management.Identity.Tables.{UserRow, Tables, find_row, get_session_by_token_hash}
use project_management.Identity.Token.{opaque_token_bytes}
use project_management.Identity.Base64.{AreBytes}
use project_management.Identity.Window.{Time}
use project_management.Prelude.Outcome.{ok, err, panic}
use project_management.Prelude.{
  ◌<◌, false, none, some, List, [], ◌∷◌, Bytes, bytes_eq_iff, length, ◌≡◌, ◌≢◌, refl, sym, ◌∙◌, ap,
  codes,
}

issued_injective :
    (token token2 : Bytes) (expires expires2 : Time)
    → issued token expires ≡ issued token2 expires2
    → (token ≡ token2) × (expires ≡ expires2)
issued_injective token token2 expires expires2 e = (cc, cc)

error_keeps_cookie :
    (f : Failure) (token : Bytes) (expires : Time)
    → (write_accept_error f).cookie ≢ issued token expires
unfolding write_accept_error
error_keeps_cookie invitation_not_usable token expires e = cc
error_keeps_cookie f token expires e = cc

first_live :
    (u : UserRow) (us : List UserRow)
    → u.deleted_at ≡ none
    → find_row (live_owner u.id) (u ∷ us) ≡ some u
unfolding find_row
first_live u us live = rw (live, (bytes_eq_iff u.id u.id).1 refl) refl

module _ (parts : Parts) where
  -- The account of an answer with a cookie, and what was called for it.
  abbrev Welcomed :
      Call
      → Sessions.Call
      → Acceptance
      → (user_agent : Bytes) → Tables
      → Reply
      → Tables
      → (token : Bytes) → (expires : Time) → Type 0
  Welcomed call issuing a user_agent t r t' token expires =
      (user : User) × (between : Tables) × (session : Session) × (Service.accept parts.lower
          parts.sha256 parts.crypto call a.token a.name a.password t
        ≡ (ok user, between))
      × (Sessions.issue parts.sha256 issuing user.id user_agent between ≡ (ok (token, session), t'))
      × (session.expires_at ≡ expires)
      × (r.status ≡ 201)
      × (r.body ≡ account user)

  accept_inv :
      (call : Call) (issuing : Sessions.Call) (a : Acceptance) (user_agent : Bytes) (t t' : Tables)
      (r : Reply) (token : Bytes) (expires : Time)
      → accept_invitation parts call issuing (some a) user_agent t ≡ (r, t')
      → r.cookie ≡ issued token expires
      → Welcomed call issuing a user_agent t r t' token expires
  unfolding accept_invitation accept_checked accepted_reply
  accept_inv call issuing a user_agent t t' r token expires e c =
      checked
        (required (codes "token") a.token
          (required (codes "name") a.name (required (codes "password") a.password [])))
        e
    where
      untouched_not_issued :
          (q : Reply) (u : Tables)
          → q.cookie ≡ untouched
          → ◌≡◌ {A = Reply × Tables} (q, u) (r, t')
          → ⊥
      untouched_not_issued q u h f =
          let kept : untouched ≡ issued token expires =
            sym h ∙ ap (λ (y : Reply × Tables). y.0.cookie) f ∙ c in
          cc

      with_session :
          (user : User) (between : Tables)
          → Service.accept parts.lower parts.sha256 parts.crypto call a.token a.name a.password t
            ≡ (ok user, between)
          → (i : Result (Bytes × Session) × Tables)
          → Sessions.issue parts.sha256 issuing user.id user_agent between ≡ i
          → session_reply parts user i ≡ (r, t')
          → Welcomed call issuing a user_agent t r t' token expires
      with_session user between p (ok (drawn, session), u) q f =
          let written : session_reply parts user (ok (drawn, session), u) ≡ (r, t') = f in
          let (same, until) =
            issued_injective drawn token session.expires_at expires
              (ap (λ (y : Reply × Tables). y.0.cookie) written ∙ c) in
          (
            user,
            between,
            session,
            p,
            q
                ∙ ap (λ (x : Bytes). (ok (x, session), u)) same
                ∙ ap (λ (y : Reply × Tables). (ok (token, session), y.1)) written,
            until,
            sym (ap (λ (y : Reply × Tables). y.0.status) written),
            sym (ap (λ (y : Reply × Tables). y.0.body) written),
          )
      with_session user between p (err x, u) q f = absurd (untouched_not_issued _ _ refl f)
      with_session user between p (panic, u) q f = absurd (untouched_not_issued _ _ refl f)

      with_account :
          (s : Result User × Tables)
          → Service.accept parts.lower parts.sha256 parts.crypto call a.token a.name a.password t
            ≡ s
          → accepted_reply parts issuing user_agent s ≡ (r, t')
          → Welcomed call issuing a user_agent t r t' token expires
      with_account (ok user, between) p f =
          with_session user between p
            (Sessions.issue parts.sha256 issuing user.id user_agent between) refl f
      with_account (err x, u) p f =
          absurd
            (error_keeps_cookie x token expires (ap (λ (y : Reply × Tables). y.0.cookie) f ∙ c))
      with_account (panic, u) p f = absurd (untouched_not_issued _ _ refl f)

      checked :
          (ds : List FieldError)
          → accept_checked parts call issuing a user_agent ds t ≡ (r, t')
          → Welcomed call issuing a user_agent t r t' token expires
      checked (d ∷ ds) f = absurd (untouched_not_issued _ _ refl f)
      checked [] f =
          with_account
            (Service.accept parts.lower parts.sha256 parts.crypto call a.token a.name a.password t)
            refl f

  -- If the answer to an acceptance sets a cookie, it is a 201 with the account that was made of the
  -- invitation, and the token of the cookie is signed in as that account, as long as the deadline of the
  -- cookie has not passed and the read of the session does not fail. The token is drawn from 32 bytes.
  pub accept_signs_in :
      (call : Call) (issuing later : Sessions.Call) (a : Acceptance) (user_agent raw token : Bytes)
      (expires : Time) (t t' : Tables) (r : Reply)
      → issuing.raw_read ≡ some raw
      → length raw ≡ opaque_token_bytes
      → AreBytes raw
      → accept_invitation parts call issuing (some a) user_agent t ≡ (r, t')
      → r.cookie ≡ issued token expires
      → later.fails get_session_by_token_hash ≡ false
      → later.clock < expires
      → (user : User) × (session_id : Bytes) × (r.status ≡ 201)
        × (r.body ≡ account user)
        × ((Sessions.authenticate parts.sha256 later token t').0
            ≡ ok (record {
              session_id = session_id;
              user_id = user.id;
              email = user.email;
              name = user.name;
              timezone = user.timezone;
              role = user.role;
            }))
  unfolding user_of session_of new_session_expiry
  accept_signs_in call issuing later a user_agent raw token expires t t' r rd l b e c up early =
      let (user, between, session, made, given, until, status, body) =
        accept_inv call issuing a user_agent t t' r token expires e c in
      let (
        digest, full_name, hash, row, read_token, trimmed, hashed, found, unused, in_time, free,
        users_after, answer, sessions_after, resets_after,
      ) =
        accept_effect parts.lower parts.sha256 parts.crypto call a.token a.name a.password t between
          user made in
      let account_row = account_of call row full_name hash in
      let live : find_row (live_owner account_row.id) between.users ≡ some account_row =
        rw users_after (first_live account_row t.users refl) in
      let issued_to =
        ap (λ (x : User). Sessions.issue parts.sha256 issuing x.id user_agent between) (sym answer)
        ∙ given in
      let (drawn_as, of_row, stored) =
        issue_inv parts.sha256 issuing account_row.id user_agent raw token session between t' rd
          issued_to in
      let (owner, deadline, runs) =
        issue-authenticate parts.sha256 issuing later account_row.id user_agent raw token session
          between t' account_row rd l b issued_to live up (rw (sym until, of_row) at early) in
      (user_of account_row, session.id, status, body ∙ ap account answer, runs)
