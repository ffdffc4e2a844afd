-- ===== src/Server.antt =====
-- backend/cmd/api/main.go: how the parts are put together, as far as it decides something. The limits are
-- layers around the handlers; the transaction and the login guard stand in Identity/Tables and
-- Redis/Limiter. Starting and stopping the server is left out.
pub mod Production
pub mod Counted
pub mod Invited
mod Tests
use project_management.Config.Settings.{Env, local, Config}
use project_management.Httpx.Errors.{rate_limited_message}
use project_management.Httpx.Errors as Errors
use project_management.Httpx.{
  Netip, OnLimiterFailure, fail_closed, fail_open, Limited, serves, rate_limited, client_ip,
  rate_limit_key, rate_limit,
}
use project_management.Identity.Handler.Invitations as Invitations
use project_management.Identity.Handler.Invitations.{
  Acceptance, accept_invitation, create_invitation,
}
use project_management.Identity.Handler.PasswordResets as Resets
use project_management.Identity.Handler.PasswordResets.{request_reset, confirm_reset}
use project_management.Identity.Handler.Reply.{Reply, write_error}
use project_management.Identity.Handler.Sessions.{require_session}
use project_management.Identity.Service.Invitations.{Call}
use project_management.Identity.Service.LoginGuard.{Answer, minute}
use project_management.Identity.Service.Reset.{Surroundings}
use project_management.Identity.Service.ResetRequest.{Limiter}
use project_management.Identity.Service.Sessions as Sessions
use project_management.Identity.Service.Sessions.{Authenticated}
use project_management.Identity.Tables.{Tables}
use project_management.Identity.Window.{hour}
use project_management.Mail.Smtp.{Options}
use project_management.Redis.Limiter.{allow}
use project_management.Redis.{Commands, Tier, Link}
use project_management.Prelude.{
  ℕ, ◌*◌, Bool, true, false, Option, none, some, List, [], ◌∷◌, ◌++◌, Bytes, codes,
}

abbrev pub is_local : Env → Bool
is_local local = true
is_local e = false

-- What `run` hands to `mail.NewSMTP`.
unfoldable pub mail_options : {Prefix : Type 0} → Config Prefix → Options
mail_options cfg = record {
  host = cfg.smtp.host;
  port = cfg.smtp.port;
  from = cfg.smtp.from;
  username = cfg.smtp.username;
  password = cfg.smtp.password;
  allow_unencrypted = is_local cfg.env;
}

abbrev pub invite_tiers : List Tier
invite_tiers =
    record { limit = 20; window = hour } ∷ record { limit = 100; window = 24 * hour } ∷ []

abbrev pub accept_tiers : List Tier
accept_tiers =
    record { limit = 10; window = 10 * minute } ∷ record { limit = 50; window = hour } ∷ []

abbrev pub reset_account_tiers : List Tier
reset_account_tiers = record { limit = 3; window = hour } ∷ []

abbrev pub reset_request_tiers : List Tier
reset_request_tiers = record { limit = 10; window = hour } ∷ []

abbrev pub reset_confirm_tiers : List Tier
reset_confirm_tiers =
    record { limit = 10; window = 10 * minute } ∷ record { limit = 50; window = hour } ∷ []

-- A request with no session keys nothing.
unfoldable pub invite_key : Option Authenticated → Bytes
invite_key none = []
invite_key (some who) = codes "invite:" ++ who.user_id

-- What the limits read of a request.
pub record Origin : Type 0 where
  pub remote_addr : Bytes
  pub forwarded : List Bytes

module _ {Addr Prefix : Type 0} (netip : Netip Addr Prefix) (trusted : List Prefix) where
  abbrev address_or_unkeyable : Option Addr → Bytes
  address_or_unkeyable none = codes "unkeyable"
  address_or_unkeyable (some addr) = rate_limit_key netip addr

  abbrev origin_key : Origin → Bytes
  origin_key o = address_or_unkeyable (client_ip netip trusted o.remote_addr o.forwarded)

  unfoldable pub accept_key : Origin → Bytes
  accept_key o = codes "accept:" ++ origin_key o

  unfoldable pub reset_request_key : Origin → Bytes
  reset_request_key o = codes "reset:" ++ origin_key o

  unfoldable pub reset_confirm_key : Origin → Bytes
  reset_confirm_key o = codes "reset-confirm:" ++ origin_key o

-- Over the store of the limiters and the tables.
abbrev pub Endpoint : Type 0 → Type 0
Endpoint S = S → Tables → Reply × (S × Tables)

module _ {S : Type 0} where
  -- A handler that does not touch the store of the limiter.
  abbrev pub on_tables : (Tables → Reply × Tables) → Endpoint S
  on_tables next s t = let (r, t') = next t in (r, (s, t'))

  abbrev pub limited_as : Endpoint S → Limited × S → Tables → Reply × (S × Tables)
  limited_as next (serves, s) t = next s t
  limited_as next (rate_limited seconds, s) t = (
    record (write_error Errors.rate_limited rate_limited_message []) { retry_after = some seconds },
    (s, t),
  )

  -- `httpx.RateLimit` around a handler.
  unfoldable pub limited :
      (ask : Bytes → S → Answer × S) → OnLimiterFailure → (key : Bytes) → Endpoint S → Endpoint S
  limited ask mode key next s t = limited_as next (rate_limit ask mode key s) t

module _ {S Addr Prefix : Type 0} (redis : Commands S) (link : S → Link) (format_int : ℕ → Bytes)
    (netip : Netip Addr Prefix) (trusted : List Prefix) where
  -- `resetAccountLimit`.
  unfoldable pub reset_account_limit : Limiter S
  reset_account_limit = record { allow = allow redis link format_int reset_account_tiers }

  -- POST /invitations inside of the session middleware.
  unfoldable pub invitations_endpoint :
      Invitations.Parts → Call → Option Authenticated → Option (Bytes × Bytes) → Endpoint S
  unfolding limited invite_key
  invitations_endpoint parts call caller body =
      limited (allow redis link format_int invite_tiers) fail_open (invite_key caller)
        (on_tables (create_invitation parts call caller body))

  -- POST /invitations, as `Register` puts it together: the middleware finds the session, inside of it the
  -- limit is asked.
  unfoldable pub invitations_route :
      Invitations.Parts
      → Call
      → (looking : Sessions.Call) → (cookie : Option Bytes) → (body : Option (Bytes × Bytes))
      → Endpoint S
  unfolding invitations_endpoint
  invitations_route parts call looking cookie body s t =
      require_session (λ v. (s, v)) parts.sha256 looking
        (λ caller v. invitations_endpoint parts call caller body s v) cookie t

  -- POST /invitations/accept.
  unfoldable pub accept_endpoint :
      Invitations.Parts
      → Call
      → Sessions.Call
      → Origin
      → Option Acceptance
      → (user_agent : Bytes) → Endpoint S
  unfolding limited accept_key
  accept_endpoint parts call issuing origin body user_agent =
      limited (allow redis link format_int accept_tiers) fail_closed
        (accept_key netip trusted origin)
        (on_tables (accept_invitation parts call issuing body user_agent))

  -- POST /auth/password/reset.
  unfoldable pub reset_request_endpoint : Resets.Parts S → Call → Origin → Option Bytes → Endpoint S
  unfolding limited reset_request_key
  reset_request_endpoint parts call origin body =
      limited (allow redis link format_int reset_request_tiers) fail_closed
        (reset_request_key netip trusted origin) (request_reset parts call body)

  -- POST /auth/password/reset/confirm.
  unfoldable pub reset_confirm_endpoint :
      Resets.Parts S → Surroundings → Origin → Option (Bytes × Bytes) → Endpoint S
  unfolding limited reset_confirm_key
  reset_confirm_endpoint parts call origin body =
      limited (allow redis link format_int reset_confirm_tiers) fail_closed
        (reset_confirm_key netip trusted origin) (on_tables (confirm_reset parts call body))
