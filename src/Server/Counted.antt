-- ===== src/Server/Counted.antt =====
-- Redeeming an invitation, asking for a reset link and following it are limited, and fail closed.
use project_management.Httpx.Errors.{status_of}
use project_management.Httpx.{Netip, fail_closed, rate_limit, client_ip, rate_limit_key}
use project_management.Identity.Handler.Invitations as Invitations
use project_management.Identity.Handler.Invitations.{Acceptance, accept_invitation}
use project_management.Identity.Handler.PasswordResets as Resets
use project_management.Identity.Handler.PasswordResets.{request_reset, confirm_reset}
use project_management.Identity.Handler.Reply.{Reply}
use project_management.Identity.Service.Invitations.{Call}
use project_management.Identity.Service.LoginGuard.{Answer}
use project_management.Identity.Service.Reset.{Surroundings}
use project_management.Identity.Service.Sessions as Sessions
use project_management.Identity.Tables.{Tables}
use project_management.Redis.Limiter.{allow}
use project_management.Redis.{Commands, Link, Tier}
use project_management.Server.{
  Origin, accept_key, reset_request_key, reset_confirm_key, Endpoint, on_tables, limited,
  accept_endpoint, reset_request_endpoint, reset_confirm_endpoint,
}
use project_management.Prelude.{
  ℕ, true, Option, none, some, List, [], ◌∷◌, ◌++◌, Bytes, codes, ◌≡◌, ◌⊎◌, inl, inr, refl,
  Bool-cases, Option-cases,
}

-- 10 hits in ten minutes and 50 in an hour, in nanoseconds.
abbrev pub twice : List Tier
twice =
    record { limit = 10; window = 600000000000 }
    ∷ record { limit = 50; window = 3600000000000 }
    ∷ []

-- 10 hits in an hour.
abbrev pub once : List Tier
once = record { limit = 10; window = 3600000000000 } ∷ []

module _ {S : Type 0} where
  -- The limiter was asked for the key, it answered that there is room, and the handler was called; or the
  -- answer is a 429 and the handler was not called.
  abbrev pub Counted :
      (ask : Bytes → S → Answer × S)
      → (key : Bytes) → Endpoint S
      → S
      → Tables
      → Reply × (S × Tables)
      → Type 0
  Counted ask key next s t r =
      (((ask key s).0.room ≡ true) × ((ask key s).0.failed ≡ none) × (r ≡ next (ask key s).1 t))
      ⊎ ((r.0.status ≡ 429) × (r.1 ≡ ((ask key s).1, t)))

  limited-Counted :
      (ask : Bytes → S → Answer × S) (c : ℕ) (key : Bytes) (next : Endpoint S) (s : S) (t : Tables)
      → Counted ask (c ∷ key) next s t (limited ask fail_closed (c ∷ key) next s t)
  unfolding limited rate_limit status_of
  limited-Counted ask c key next s t = elim (Option-cases (ask (c ∷ key) s).0.failed) [
    | inr (e, lost) ↦ simp lost (inr (refl, refl))
    | inl answered ↦ elim (Bool-cases (ask (c ∷ key) s).0.room) [
      | inl room ↦ simp (answered, room) (inl (refl, refl, refl))
      | inr full ↦ simp (answered, full) (inr (refl, refl))
    ]
  ]

module _ {Addr Prefix : Type 0} (netip : Netip Addr Prefix) where
  -- What a request counts as: the address that ClientIP settles on, and not what else it brings.
  abbrev pub counted_as : Option Addr → Bytes
  counted_as none = codes "unkeyable"
  counted_as (some addr) = rate_limit_key netip addr

module _ {S Addr Prefix : Type 0} (redis : Commands S) (link : S → Link) (format_int : ℕ → Bytes)
    (netip : Netip Addr Prefix) (trusted : List Prefix) where
  -- Redeeming an invitation, asking for a reset link and following it are never served uncounted:
  -- whatever the request, also where its address cannot be read and where Redis does not answer, either
  -- a limiter was asked for the endpoint's name and the address that ClientIP settles on, or for
  -- "unkeyable" where it settles on none, it answered that there is room, and the answer is that of the
  -- handler; or the answer is a 429 and no table changes. The limits are 10 in ten minutes and 50 in an
  -- hour to redeem an invitation and to follow a link, and 10 in an hour to ask for one.
  pub endpoints-Counted :
      (accepting : Invitations.Parts) (resetting : Resets.Parts S) (call : Call)
      (issuing : Sessions.Call) (confirming : Surroundings) (origin : Origin)
      (acceptance : Option Acceptance) (user_agent : Bytes) (email : Option Bytes)
      (confirmation : Option (Bytes × Bytes)) (s : S) (t : Tables)
      → Counted
          (allow redis link format_int twice)
          (codes "accept:"
            ++ counted_as netip (client_ip netip trusted origin.remote_addr origin.forwarded))
          (on_tables (accept_invitation accepting call issuing acceptance user_agent))
          s
          t
          (accept_endpoint redis link format_int netip trusted accepting call issuing origin
            acceptance user_agent s t)
        × Counted
            (allow redis link format_int once)
            (codes "reset:"
              ++ counted_as netip (client_ip netip trusted origin.remote_addr origin.forwarded))
            (request_reset resetting call email)
            s
            t
            (reset_request_endpoint redis link format_int netip trusted resetting call origin email
              s t)
        × Counted
            (allow redis link format_int twice)
            (codes "reset-confirm:"
              ++ counted_as netip (client_ip netip trusted origin.remote_addr origin.forwarded))
            (on_tables (confirm_reset resetting confirming confirmation))
            s
            t
            (reset_confirm_endpoint redis link format_int netip trusted resetting confirming origin
              confirmation s t)
  unfolding accept_endpoint reset_request_endpoint reset_confirm_endpoint accept_key
      reset_request_key reset_confirm_key
  endpoints-Counted accepting resetting call issuing confirming origin acceptance user_agent email
        confirmation s t =
      (limited-Counted _ _ _ _ s t, limited-Counted _ _ _ _ s t, limited-Counted _ _ _ _ s t)
