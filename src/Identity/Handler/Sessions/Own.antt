-- ===== src/Identity/Handler/Sessions/Own.antt =====
-- Behind the session middleware an account is shown and ends its own sessions only.
use project_management.Identity.Failure.{Failure, Result}
use project_management.Identity.Handler.Reply.{sessions, Reply, write_internal_error}
use project_management.Identity.Handler.Sessions.{
  list_sessions, listed_reply, revoke_session, revoked_reply, revoke_other_sessions, others_reply,
  refuse, refusal_of, with_caller, require_session, tables_alone,
}
use project_management.Identity.Service.Sessions.{
  Call, Authenticated, SessionSummary, summary, authenticate, list, revoke_by_id, revoke_others,
}
use project_management.Identity.Service.Sessions.Lifecycle.{IsSignedIn, authenticate_sound}
use project_management.Identity.Service.Sessions.Ownership.{list_lem, revocations_apart}
use project_management.Identity.Store.Sessions.{belongs_to}
use project_management.Identity.Tables.{SessionRow, Tables, delete_rows, count_rows}
use project_management.Prelude.Outcome.{ok, err, panic}
use project_management.Prelude.{
  ℕ, ◌<◌, All, ltb, Bool, true, false, Bool-cases, bytes_eq, bytes_eq_iff, subst, not, ◌&&◌, Option,
  none, some, List, map, Bytes, ◌≡◌, ◌≢◌, ◌⊎◌, inl, inr, refl, sym, ap, ◌∙◌, arith,
}

module _ (sha256 : Bytes → Bytes) (call : Call) where
  -- The handler was called, for the account of the cookie.
  abbrev pub Called :
      (Option Authenticated → Tables → Reply × Tables)
      → Option Bytes
      → Tables
      → Reply × Tables
      → Type 0
  Called next cookie t r =
      (token : Bytes) × (who : Authenticated) × (between : Tables) × (cookie ≡ some token)
      × (authenticate sha256 call token t ≡ (ok who, between))
      × IsSignedIn sha256 call token t who
      × (r ≡ next (some who) between)

  -- It was not: there is no cookie, or none of a live session, or the session could not be read.
  abbrev pub Refused : Option Bytes → Tables → Reply × Tables → Type 0
  Refused cookie t r =
      ((r ≡ (refuse, t)) × (cookie ≡ none))
      ⊎ ((token : Bytes) × (e : Failure) × (cookie ≡ some token)
          × ((authenticate sha256 call token t).0 ≡ err e)
          × (r.0 ≡ refusal_of e))
      ⊎ ((r.0 ≡ write_internal_error))

  pub require_session_cases :
      (next : Option Authenticated → Tables → Reply × Tables) (cookie : Option Bytes) (t : Tables)
      → let r = require_session tables_alone sha256 call next cookie t in
        Called next cookie t r ⊎ Refused cookie t r
  unfolding require_session with_caller
  require_session_cases next none t = inr (inl (refl, refl))
  require_session_cases next (some token) t = go (authenticate sha256 call token t) refl
    where
      go :
          (x : Result Authenticated × Tables)
          → authenticate sha256 call token t ≡ x
          → Called next (some token) t (with_caller tables_alone next x)
            ⊎ Refused (some token) t (with_caller tables_alone next x)
      go (ok who, between) p =
          inl (
            token,
            who,
            between,
            refl,
            p,
            authenticate_sound sha256 call token t who between p,
            refl,
          )
      go (err e, between) p =
          inr (inr (inl (token, e, refl, ap (λ (y : Result Authenticated × Tables). y.0) p, refl)))
      go (panic, between) p = inr (inr (inr refl))

  listed_inv :
      (second : Call) (who : Authenticated) (between t' : Tables) (out : List SessionSummary)
      (r : Reply)
      → list_sessions second (some who) between ≡ (r, t')
      → r.body ≡ sessions out
      → list second who.user_id who.session_id between ≡ (ok out, t')
  unfolding list_sessions
  listed_inv second who between t' out r e b =
      go (list second who.user_id who.session_id between) refl e
    where
      sessions_injective : (a b : List SessionSummary) → sessions a ≡ sessions b → a ≡ b
      sessions_injective a b q = cc

      go :
          (x : Result (List SessionSummary) × Tables)
          → list second who.user_id who.session_id between ≡ x
          → listed_reply x ≡ (r, t')
          → list second who.user_id who.session_id between ≡ (ok out, t')
      go (ok found, u) p f =
          let same = sessions_injective found out (ap (λ (y : Reply × Tables). y.0.body) f ∙ b) in
          p
          ∙ ap (λ (y : List SessionSummary). (ok y, u)) same
          ∙ ap (λ (y : Reply × Tables). (ok out, y.1)) f
      go (err x, u) p f = absurd (ground arith)
      go (panic, u) p f = absurd (ground arith)

  refusal_body : (e : Failure) (out : List SessionSummary) → (refusal_of e).body ≢ sessions out
  refusal_body Failure.unauthenticated out q = cc
  refusal_body e out q = cc

  Refused-body :
      (cookie : Option Bytes) (t : Tables) (r : Reply × Tables) (out : List SessionSummary)
      → Refused cookie t r
      → r.0.body ≢ sessions out
  Refused-body cookie t r out (inl (same, h)) q =
      refusal_body Failure.unauthenticated out
        (sym (ap (λ (y : Reply × Tables). y.0.body) same) ∙ q)
  Refused-body cookie t r out (inr (inl (token, e, given, failed, same))) q =
      refusal_body e out (sym (ap (λ (y : Reply). y.body) same) ∙ q)
  Refused-body cookie t r out (inr (inr same)) q =
      refusal_body Failure.no_rows out (sym (ap (λ (y : Reply). y.body) same) ∙ q)

  -- What a request for the list of sessions is shown are sessions of the account that its cookie is signed
  -- in as, each with a deadline after the database's clock; and of every kind of session it is shown as
  -- many as are stored with this account's id and such a deadline. Without such a cookie it is shown
  -- none.
  pub own_sessions_shown :
      (second : Call) (cookie : Option Bytes) (t t' : Tables) (r : Reply)
      (out : List SessionSummary)
      → require_session tables_alone sha256 call (list_sessions second) cookie t ≡ (r, t')
      → r.body ≡ sessions out
      → (token : Bytes) × (who : Authenticated) × (rows : List SessionRow) × (cookie ≡ some token)
        × IsSignedIn sha256 call token t who
        × (out ≡ map (summary who.session_id) rows)
        × All (λ s. (s.user_id ≡ who.user_id) × (second.db_now < s.expires_at)) rows
        × ((q : SessionRow → Bool)
            → count_rows q rows
              ≡ count_rows
                  (λ s. (bytes_eq s.user_id who.user_id && ltb second.db_now s.expires_at) && q s)
                  t'.sessions)
  own_sessions_shown second cookie t t' r out e b =
      elim (require_session_cases (list_sessions second) cookie t) [
        | inl (token, who, between, given, read, live, run) ↦
            let (same, (rows, shown, counted, newest, own)) =
              list_lem second who.user_id who.session_id out between t'
                (listed_inv second who between t' out r (sym run ∙ e) b) in
            (token, who, rows, given, live, shown, own, λ q. rw same (counted q))
        | inr refused ↦
            absurd
              (Refused-body cookie t _ out refused (ap (λ (y : Reply × Tables). y.0.body) e ∙ b))
      ]

  -- The tables once the middleware has looked up the session.
  abbrev pub looked_up : Option Bytes → Tables → Tables
  looked_up none t = t
  looked_up (some token) t = (authenticate sha256 call token t).1

  abbrev pub SessionsKept : (account : Bytes) → Tables → Tables → Type 0
  SessionsKept account t t' =
      delete_rows (λ s. not (belongs_to account s)) t'.sessions
      ≡ delete_rows (λ s. not (belongs_to account s)) t.sessions

  abbrev pub SignedInAs : (account : Bytes) → Option Bytes → Tables → Type 0
  SignedInAs account cookie t =
      (token : Bytes) × (who : Authenticated) × (cookie ≡ some token)
      × IsSignedIn sha256 call token t who
      × (who.user_id ≡ account)

  -- The tables that a handler of this account's own leaves, seen from outside of the middleware.
  guarded_kept :
      (next : Option Authenticated → Tables → Reply × Tables) (account : Bytes)
      → ((who : Authenticated) (between : Tables)
          → account ≢ who.user_id
          → SessionsKept account between (next (some who) between).1)
      → (cookie : Option Bytes) (t : Tables)
      → SessionsKept account
          (looked_up cookie t)
          (require_session tables_alone sha256 call next cookie t).1
        ⊎ SignedInAs account cookie t
  unfolding require_session with_caller
  guarded_kept next account own none t = inl refl
  guarded_kept next account own (some token) t = go (authenticate sha256 call token t) refl
    where
      go :
          (x : Result Authenticated × Tables)
          → authenticate sha256 call token t ≡ x
          → SessionsKept account x.1 (with_caller tables_alone next x).1
            ⊎ SignedInAs account (some token) t
      go (ok who, between) p = elim (Bool-cases (bytes_eq account who.user_id)) [
        | inl own_account ↦ inr (
          token,
          who,
          refl,
          authenticate_sound sha256 call token t who between p,
          sym ((bytes_eq_iff account who.user_id).0 own_account),
        )
        | inr other ↦
            inl (own who between (λ e. false_ne_true (sym other ∙ (bytes_eq_iff _ _).1 e)))
      ]
        where
          false_ne_true : false ≢ true
          false_ne_true q = cc
      go (err e, between) p = inl refl
      go (panic, between) p = inl refl

  module _ (is_uuid : Bytes → Bool) where
    -- Ending a session, by its id, or all others, changes the sessions of an account only if the cookie of
    -- the request is signed in as that account: for all other accounts they are what they were once the
    -- middleware had looked up the session, whatever the request asks for and whatever fails.
    pub others_sessions_untouched :
        (second : Call) (account id : Bytes) (cookie : Option Bytes) (t : Tables)
        → (SessionsKept account
              (looked_up cookie t)
              (require_session tables_alone sha256 call
                (revoke_session is_uuid second id)
                cookie
                t).1
            ⊎ SignedInAs account cookie t)
          × (SessionsKept account
                (looked_up cookie t)
                (require_session tables_alone sha256 call
                  (revoke_other_sessions is_uuid second)
                  cookie
                  t).1
              ⊎ SignedInAs account cookie t)
    unfolding revoke_session revoke_other_sessions
    others_sessions_untouched second account id cookie t = (
      guarded_kept (revoke_session is_uuid second id) account
          (λ who between other.
            subst (SessionsKept account between)
              (revoked_tables who id (revoke_by_id is_uuid second who.user_id id between))
              (revocations_apart is_uuid second who.user_id id account between other).0)
          cookie t,
      guarded_kept (revoke_other_sessions is_uuid second) account
          (λ who between other.
            subst (SessionsKept account between)
              (others_tables (revoke_others is_uuid second who.user_id who.session_id between))
              (revocations_apart is_uuid second who.user_id who.session_id account between other).1)
          cookie t,
    )
      where
        revoked_tables :
            (who : Authenticated) (id : Bytes) (x : Result (Unit {0}) × Tables)
            → x.1 ≡ (revoked_reply who id x).1
        revoked_tables who id (ok u, v) = refl
        revoked_tables who id (err e, v) = refl
        revoked_tables who id (panic, v) = refl

        others_tables : (x : Result ℕ × Tables) → x.1 ≡ (others_reply x).1
        others_tables (ok n, v) = refl
        others_tables (err e, v) = refl
        others_tables (panic, v) = refl
