-- ===== src/Identity/Handler/Auth/Sound.antt =====
-- Signing in through the endpoint: who was signed in, and what is left in the store.
use project_management.Httpx.{Netip, client_ip, rate_limit_key, rate_limit_prefix_key}
use project_management.Identity.Base64.{AreBytes}
use project_management.Identity.Handler.Auth.{Request, signed_in, attempt_of, Parts, Around, login}
use project_management.Identity.Handler.Auth.Login.{login-SignedIn}
use project_management.Identity.Service.Credentials.Sound.{IsOwner, authenticate-IsOwner}
use project_management.Identity.Service.Invitations.{User}
use project_management.Identity.Service.LoginGuard.{
  Answer, Decision, LoginAttempt, proceed, account_key, address_key, network_key, buckets_for,
}
use project_management.Identity.Service.LoginGuard.Verdict.{
  Verdict, lets_through, waits, fails_closed, Refuses, Answered, answers, check-Verdict,
}
use project_management.Identity.Service.Sessions.{session_of, clean_user_agent}
use project_management.Identity.Service.Sessions.Lifecycle.{issued_row, issue_inv}
use project_management.Identity.Session.{Session, new_session_expiry}
use project_management.Identity.Tables.{SessionRow, Tables}
use project_management.Identity.Token.{session_token_digest}
use project_management.Identity.Token.RoundTrip.{new_opaque_token-digest}
use project_management.Identity.Window.{Time}
use project_management.Prelude.Outcome.{ok}
use project_management.Prelude.{
  All, Option, none, some, List, [], ◌∷◌, ◌++◌, ◌+◌, Bytes, codes, length, ◌≡◌, refl, sym, ap,
  subst, ◌∙◌,
}

-- All counters answered, and none refused with a time to wait.
abbrev pub AreOpen : List Answer → Type 0
AreOpen got = All Answered got × All (λ a. Refuses a → a.wait ≡ 0) got

through-AreOpen : (got : List Answer) (d : Decision) → Verdict got d → d ≡ proceed → AreOpen got
through-AreOpen got d (lets_through all zero through) e = (all, zero)
through-AreOpen got d (waits w all more longest some_wait refused) e = absurd (cc)
through-AreOpen got d (fails_closed lost refused) e = absurd (cc)

attempt_inv :
    {Addr Prefix : Type 0} (netip : Netip Addr Prefix) (email : Bytes) (from : Option Addr)
    (attempt : LoginAttempt)
    → attempt_of netip email from ≡ some attempt
    → (addr : Addr) × (from ≡ some addr)
      × (record {
        email = email;
        address = rate_limit_key netip addr;
        network = rate_limit_prefix_key netip addr;
      }
          ≡ attempt)
unfolding attempt_of
attempt_inv netip email none attempt e = absurd (cc)
attempt_inv netip email (some addr) attempt e = (addr, refl, cc)

module _ {S Addr Prefix : Type 0} (parts : Parts S Addr Prefix) (around : Around) where
  -- What the three counters of an address answer, each asked in turn.
  abbrev pub asked : (email : Bytes) → Addr → S → List Answer
  asked email addr s =
      answers
        (record { counter = parts.guard.account; key = account_key parts.sha256 parts.fold email }
          ∷ record {
            counter = parts.guard.address;
            key = codes "ip:" ++ rate_limit_key parts.netip addr;
          }
          ∷ record {
            counter = parts.guard.network;
            key = codes "net:" ++ rate_limit_prefix_key parts.netip addr;
          }
          ∷ [])
        s

  -- A request that was signed in, and what it left.
  pub record IsLogin (r : Request) (s : S) (t t' : Tables) (user : User) (token raw : Bytes)
      (expires : Time) : Type 0 where
    pub email : Bytes
    pub password : Bytes
    pub addr : Addr
    pub body_read : r.body ≡ some (email, password)
    pub from : client_ip parts.netip parts.trusted r.remote_addr r.forwarded ≡ some addr
    pub unstopped : AreOpen (asked email addr s)
    pub owner : IsOwner parts.crypto parts.scanner parts.cpus parts.lower email password t user
    pub digest : session_token_digest parts.sha256 token ≡ ok (parts.sha256 raw)
    pub stored :
        t'.sessions
        ≡ record {
          id = around.sessions.new_id;
          user_id = user.id;
          token_hash = parts.sha256 raw;
          user_agent = clean_user_agent r.user_agent;
          created_at = around.sessions.db_now;
          last_seen_at = around.sessions.db_now;
          expires_at = expires;
        }
          ∷ t.sessions
    pub deadline : expires ≡ around.sessions.clock + 1209600000000000

  -- If a request is signed in with a cookie, then, where 32 bytes were drawn for the cookie: the
  -- body held an address and a password; the counters of the account, of the client's address and
  -- of its network all answered, and none of them refused with a time to wait; the account of the
  -- answer is a stored one that is not masked, has this address in whatever case, and Argon2 makes
  -- the key of its stored hash of this password; one session was added, for this account, under the
  -- digest of the cookie; and the deadline, its own and the cookie's, is 14 days after the
  -- application's clock.
  pub login-IsLogin :
      (r : Request) (s s' : S) (t t' : Tables) (user : User) (token raw : Bytes) (expires : Time)
      → around.sessions.raw_read ≡ some raw
      → length raw ≡ 32
      → AreBytes raw
      → login parts around r s t ≡ (signed_in user token expires, (s', t'))
      → IsLogin r s t t' user token raw expires
  unfolding buckets_for account_key address_key network_key new_session_expiry session_of
  login-IsLogin r s s' t t' user token raw expires read size bytes e =
      let done = login-SignedIn parts around r s s' t t' user token expires e in
      let (addr, from, same) = attempt_inv parts.netip done.email _ done.attempt done.keyed in
      let (owner, kept) =
        authenticate-IsOwner parts.crypto parts.scanner parts.cpus parts.lower parts.decoy
          around.credentials done.email done.password t user done.password_right in
      let (drawn, as_session, left) =
        issue_inv parts.sha256 around.sessions user.id r.user_agent raw token done.session _ t' read
          done.issued in
      let (digest, other, another) =
        new_opaque_token-digest parts.sha256 raw token (parts.sha256 raw) size bytes drawn in
      let verdict = check-Verdict parts.sha256 parts.fold parts.guard done.attempt s in
      let reckoned : expires ≡ around.sessions.clock + 1209600000000000 =
        done.deadline ∙ ap (λ (x : Session). x.expires_at) as_session in
      let row_until : Time → SessionRow = λ x.
        record (issued_row around.sessions user.id r.user_agent (parts.sha256 raw)) {
          expires_at = x;
        } in
      record {
        email = done.email;
        password = done.password;
        addr = addr;
        body_read = done.body_read;
        from = from;
        unstopped =
            subst
              (λ (a : LoginAttempt).
                AreOpen (answers (buckets_for parts.sha256 parts.fold parts.guard a) s))
              (sym same) (through-AreOpen _ _ verdict done.let_through);
        owner = owner;
        digest = digest;
        stored =
            ap (λ (v : Tables). v.sessions) left
            ∙ ap
                (λ (ss : List SessionRow).
                  issued_row around.sessions user.id r.user_agent (parts.sha256 raw) ∷ ss)
                kept
            ∙ ap (λ (x : Time). row_until x ∷ t.sessions) (sym reckoned);
        deadline = reckoned;
      }
