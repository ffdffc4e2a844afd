-- ===== src/Identity/Handler/Auth/Login.antt =====
-- Signing in through the endpoint: the guard, the password and the session, in this order.
use project_management.Identity.Failure.{Result}
use project_management.Identity.Handler.Auth.{
  Request, missing, signed_in, attempt_of, Parts, Around, answer_of, login_checked, login_decided,
  login_keyed, login_body, login,
}
use project_management.Httpx.{client_ip}
use project_management.Identity.Service.Credentials as Credentials
use project_management.Identity.Service.Credentials.{Checked}
use project_management.Identity.Service.Invitations.{User}
use project_management.Identity.Service.LoginGuard as Guard
use project_management.Identity.Service.LoginGuard.{
  LoginAttempt, Decision, proceed, too_many_attempts,
}
use project_management.Identity.Service.Sessions as Sessions
use project_management.Identity.Session.{Session}
use project_management.Identity.Tables.{Tables}
use project_management.Identity.Window.{Time}
use project_management.Prelude.Outcome.{ok, err, panic}
use project_management.Prelude.{
  Bool, true, false, ◌||◌, Option, none, some, [], Bytes, ◌≡◌, refl, sym, ap, ◌∙◌, arith, bytes_eq,
  if◌then◌else◌,
}

module _ {S Addr Prefix : Type 0} (parts : Parts S Addr Prefix) (around : Around) where
  -- The steps of a request that was signed in.
  pub record SignedIn (r : Request) (s : S) (t : Tables) (user : User) (token : Bytes)
      (expires : Time) (s' : S) (t' : Tables) : Type 0 where
    pub email : Bytes
    pub password : Bytes
    pub attempt : LoginAttempt
    pub session : Session
    pub body_read : r.body ≡ some (email, password)
    pub keyed :
        attempt_of parts.netip email (client_ip parts.netip parts.trusted r.remote_addr r.forwarded)
        ≡ some attempt
    pub let_through : (Guard.check parts.sha256 parts.fold parts.guard attempt s).0 ≡ proceed
    pub password_right :
        (Credentials.authenticate parts.crypto parts.scanner parts.cpus parts.lower parts.decoy
          around.credentials email password t).0.answer
        ≡ ok user
    pub issued :
        Sessions.issue parts.sha256 around.sessions user.id r.user_agent
          (Credentials.authenticate parts.crypto parts.scanner parts.cpus parts.lower parts.decoy
            around.credentials email password t).1
        ≡ (ok (token, session), t')
    pub deadline : expires ≡ session.expires_at
    pub cleared :
        s'
        ≡ Guard.succeeded parts.sha256 parts.fold parts.guard attempt
            (Guard.check parts.sha256 parts.fold parts.guard attempt s).1

  answer_inv :
      (user user2 : User) (s s' : S) (x : Result (Bytes × Session) × Tables) (token : Bytes)
      (expires : Time) (t' : Tables)
      → answer_of parts user s x ≡ (signed_in user2 token expires, (s', t'))
      → (session : Session) × (x ≡ (ok (token, session), t'))
        × (expires ≡ session.expires_at)
        × (user ≡ user2)
        × (s ≡ s')
  answer_inv user user2 s s' (ok (token2, session), t) token expires t' e =
      (session, ground arith, ground arith, ground arith, ground arith)
  answer_inv user user2 s s' (err f, t) token expires t' e = absurd (ground arith)
  answer_inv user user2 s s' (panic, t) token expires t' e = absurd (ground arith)

  checked_inv :
      (attempt : LoginAttempt) (ua : Bytes) (a : Result User) (s s' : S) (t t' : Tables)
      (user : User) (token : Bytes) (expires : Time)
      → login_checked parts around ua attempt a s t ≡ (signed_in user token expires, (s', t'))
      → (session : Session) × (a ≡ ok user)
        × (Sessions.issue parts.sha256 around.sessions user.id ua t ≡ (ok (token, session), t'))
        × (expires ≡ session.expires_at)
        × (s' ≡ Guard.succeeded parts.sha256 parts.fold parts.guard attempt s)
  unfolding login_checked
  checked_inv attempt ua (ok u) s s' t t' user token expires e =
      let (session, issued, deadline, same_user, same_state) =
        answer_inv u user (Guard.succeeded parts.sha256 parts.fold parts.guard attempt s) s'
          (Sessions.issue parts.sha256 around.sessions u.id ua t) token expires t' e in
      (
        session,
        ap ok same_user,
        ap (λ (x : User). Sessions.issue parts.sha256 around.sessions x.id ua t) (sym same_user)
            ∙ issued,
        deadline,
        sym same_state,
      )
  checked_inv attempt ua (err f) s s' t t' user token expires e = absurd (ground arith)
  checked_inv attempt ua panic s s' t t' user token expires e = absurd (ground arith)

  keyed_inv :
      (r : Request) (email password : Bytes) (o : Option LoginAttempt) (s s' : S) (t t' : Tables)
      (user : User) (token : Bytes) (expires : Time)
      → r.body ≡ some (email, password)
      → attempt_of parts.netip email (client_ip parts.netip parts.trusted r.remote_addr r.forwarded)
        ≡ o
      → login_keyed parts around r.user_agent email password o s t
        ≡ (signed_in user token expires, (s', t'))
      → SignedIn r s t user token expires s' t'
  unfolding login_keyed login_decided
  keyed_inv r email password none s s' t t' user token expires body keyed e = absurd (ground arith)
  keyed_inv r email password (some attempt) s s' t t' user token expires body keyed e =
      go (Guard.check parts.sha256 parts.fold parts.guard attempt s).0 refl e
    where
      go :
          (d : Decision)
          → (Guard.check parts.sha256 parts.fold parts.guard attempt s).0 ≡ d
          → login_decided parts around r.user_agent email password attempt d
              (Guard.check parts.sha256 parts.fold parts.guard attempt s).1
              t
            ≡ (signed_in user token expires, (s', t'))
          → SignedIn r s t user token expires s' t'
      go (too_many_attempts w) q f = absurd (ground arith)
      go proceed q f =
          let checked =
            Credentials.authenticate parts.crypto parts.scanner parts.cpus parts.lower parts.decoy
              around.credentials email password t in
          let (session, right, issued, deadline, cleared) =
            checked_inv attempt r.user_agent checked.0.answer
              (Guard.check parts.sha256 parts.fold parts.guard attempt s).1 s' checked.1 t' user
              token expires f in
          record {
            email = email;
            password = password;
            attempt = attempt;
            session = session;
            body_read = body;
            keyed = keyed;
            let_through = q;
            password_right = right;
            issued = issued;
            deadline = deadline;
            cleared = cleared;
          }

  -- If a request is signed in, its body was read, its address gave the keys of the guard, the guard let
  -- it through, the password was right for the account that the answer shows, the cookie is the token
  -- of a session that was issued to that account after the check, with that session's deadline, and the
  -- account's failures are cleared.
  pub login-SignedIn :
      (r : Request) (s s' : S) (t t' : Tables) (user : User) (token : Bytes) (expires : Time)
      → login parts around r s t ≡ (signed_in user token expires, (s', t'))
      → SignedIn r s t user token expires s' t'
  unfolding login login_body
  login-SignedIn r s s' t t' user token expires e = go r.body refl e
    where
      choose :
          (email password : Bytes)
          → r.body ≡ some (email, password)
          → (b : Bool)
          → (if b
              then (missing (bytes_eq email []) (bytes_eq password []), (s, t))
              else login_keyed parts around r.user_agent email password
                  (attempt_of parts.netip email
                    (client_ip parts.netip parts.trusted r.remote_addr r.forwarded))
                  s
                  t)
            ≡ (signed_in user token expires, (s', t'))
          → SignedIn r s t user token expires s' t'
      choose email password q true f = absurd (ground arith)
      choose email password q false f =
          keyed_inv r email password _ s s' t t' user token expires q refl f

      go :
          (b : Option (Bytes × Bytes))
          → r.body ≡ b
          → login_body parts around r b s t ≡ (signed_in user token expires, (s', t'))
          → SignedIn r s t user token expires s' t'
      go none q f = absurd (ground arith)
      go (some (email, password)) q f =
          choose email password q (bytes_eq email [] || bytes_eq password []) f
