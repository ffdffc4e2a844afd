-- ===== src/Identity/Handler/Auth.antt =====
-- backend/internal/modules/identity/handler/auth.go: signing in and out. Reading a request is net/http's
-- and encoding/json's: a request comes with its body read or not, and a response is told by its kind.
-- Logging is left out.
pub mod Login
pub mod Sound
use project_management.Httpx.{
  Netip, client_ip, rate_limit_key, rate_limit_prefix_key, retry_after_seconds,
}
use project_management.Identity.Failure.{Failure, Result, invalid_credentials}
use project_management.Identity.Password.{PasswordCrypto}
use project_management.Identity.Password.Reading.{Scanner}
use project_management.Identity.Service.Credentials as Credentials
use project_management.Identity.Service.Credentials.{Checked}
use project_management.Identity.Service.Invitations.{User}
use project_management.Identity.Service.LoginGuard as Guard
use project_management.Identity.Service.LoginGuard.{
  LoginAttempt, LoginGuard, Decision, proceed, too_many_attempts,
}
use project_management.Identity.Service.Sessions as Sessions
use project_management.Identity.Session.{Session}
use project_management.Identity.Tables.{Tables}
use project_management.Identity.Window.{Time, second}
use project_management.Prelude.Outcome.{ok, err, panic}
use project_management.Prelude.{
  ℕ, ◌*◌, Bool, true, false, ◌||◌, Option, none, some, List, [], Bytes, bytes_eq, if◌then◌else◌,
}

abbrev pub unkeyable_wait : ℕ
unkeyable_wait = 30 * second

-- What the handlers read of a request; a body is the address and the password.
pub record Request : Type 0 where
  pub body : Option (Bytes × Bytes)
  pub remote_addr : Bytes
  pub forwarded : List Bytes
  pub user_agent : Bytes
  pub cookie : Option Bytes

pub data Response : Type 0 where
  unreadable unauthenticated internal_error crashed signed_out : Response
  missing : (email password : Bool) → Response
  rate_limited : (seconds : ℕ) → Response
  signed_in : User → (cookie : Bytes) → (expires : Time) → Response

abbrev pub is_invalid_credentials : Failure → Bool
is_invalid_credentials invalid_credentials = true
is_invalid_credentials _ = false

-- `attemptFrom`, from the client's address.
unfoldable pub attempt_of :
    {Addr Prefix : Type 0} → Netip Addr Prefix → (email : Bytes) → Option Addr → Option LoginAttempt
attempt_of netip email none = none
attempt_of netip email (some addr) = some (record {
  email = email;
  address = rate_limit_key netip addr;
  network = rate_limit_prefix_key netip addr;
})

-- What signing in calls, over the state of the counters.
pub record Parts (S Addr Prefix : Type 0) : Type 0 where
  pub sha256 : Bytes → Bytes
  pub fold : Bytes → Bytes
  pub lower : Bytes → Bytes
  pub crypto : PasswordCrypto
  pub scanner : Scanner
  pub cpus : ℕ
  pub decoy : Bytes
  pub guard : LoginGuard S
  pub netip : Netip Addr Prefix
  pub trusted : List Prefix

-- What the calls of the services find around them.
pub record Around : Type 0 where
  pub credentials : Credentials.Call
  pub sessions : Sessions.Call

module _ {S Addr Prefix : Type 0} (parts : Parts S Addr Prefix) where
  abbrev pub answer_of : User → S → Result (Bytes × Session) × Tables → Response × (S × Tables)
  answer_of user s (ok (token, session), t) = (signed_in user token session.expires_at, (s, t))
  answer_of user s (err e, t) = (internal_error, (s, t))
  answer_of user s (panic, t) = (crashed, (s, t))

  -- After the password check.
  unfoldable pub login_checked :
      Around
      → (user_agent : Bytes) → LoginAttempt
      → Result User
      → S
      → Tables
      → Response × (S × Tables)
  login_checked around user_agent attempt (ok user) s t =
      answer_of user (Guard.succeeded parts.sha256 parts.fold parts.guard attempt s)
        (Sessions.issue parts.sha256 around.sessions user.id user_agent t)
  login_checked around user_agent attempt (err e) s t =
      if is_invalid_credentials e
      then (
        unauthenticated,
        (Guard.record_failure parts.sha256 parts.fold parts.guard attempt s, t),
      )
      else (internal_error, (s, t))
  login_checked around user_agent attempt panic s t = (crashed, (s, t))

  -- After the guard.
  unfoldable pub login_decided :
      Around
      → (user_agent email password : Bytes) → LoginAttempt
      → Decision
      → S
      → Tables
      → Response × (S × Tables)
  unfolding login_checked
  login_decided around user_agent email password attempt (too_many_attempts wait) s t =
      (rate_limited (retry_after_seconds wait), (s, t))
  login_decided around user_agent email password attempt proceed s t =
      let (checked, t') =
        Credentials.authenticate parts.crypto parts.scanner parts.cpus parts.lower parts.decoy
          around.credentials email password t in
      login_checked around user_agent attempt checked.answer s t'

  -- With the attempt keyed, or not.
  unfoldable pub login_keyed :
      Around
      → (user_agent email password : Bytes) → Option LoginAttempt
      → S
      → Tables
      → Response × (S × Tables)
  unfolding login_decided
  login_keyed around user_agent email password none s t =
      (rate_limited (retry_after_seconds unkeyable_wait), (s, t))
  login_keyed around user_agent email password (some attempt) s t =
      let (decision, s') = Guard.check parts.sha256 parts.fold parts.guard attempt s in
      login_decided around user_agent email password attempt decision s' t

  -- `Login`, of a body.
  unfoldable pub login_body :
      Around → Request → Option (Bytes × Bytes) → S → Tables → Response × (S × Tables)
  unfolding login_keyed attempt_of
  login_body around r none s t = (unreadable, (s, t))
  login_body around r (some (email, password)) s t =
      if bytes_eq email [] || bytes_eq password []
      then (missing (bytes_eq email []) (bytes_eq password []), (s, t))
      else login_keyed around r.user_agent email password
          (attempt_of parts.netip email
            (client_ip parts.netip parts.trusted r.remote_addr r.forwarded))
          s t

  unfoldable pub login : Around → Request → S → Tables → Response × (S × Tables)
  login around r = login_body around r r.body

-- `Logout`: the cookie is cleared unless the session may still be live.
unfoldable pub logout :
    (sha256 : Bytes → Bytes) → Sessions.Call → (cookie : Option Bytes) → Tables → Response × Tables
logout sha256 call none t = (signed_out, t)
logout sha256 call (some token) t =
    let (r, t') = Sessions.revoke sha256 call token t in
    (elim r [ ok u ↦ signed_out | err e ↦ internal_error | panic ↦ crashed ], t')
