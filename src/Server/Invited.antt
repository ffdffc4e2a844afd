-- ===== src/Server/Invited.antt =====
-- POST /invitations as a whole: the session, the limit, the role and the service.
use project_management.Httpx.Errors.{status_of}
use project_management.Httpx.{Netip, fail_open, rate_limit}
use project_management.Identity.Failure.{Failure, Result}
use project_management.Identity.Handler.Invitations.{Parts, create_invitation}
use project_management.Identity.Handler.Invitations.Owner.{Invites, create_owner_alone}
use project_management.Identity.Handler.Reply.{Reply}
use project_management.Identity.Handler.Sessions.{refusal_of, require_session, with_caller}
use project_management.Identity.Handler.Sessions.Own.{looked_up}
use project_management.Identity.Service.Invitations.{Call}
use project_management.Identity.Service.LoginGuard.{Answer}
use project_management.Identity.Service.Sessions as Sessions
use project_management.Identity.Service.Sessions.{Authenticated, authenticate}
use project_management.Identity.Service.Sessions.Lifecycle.{IsSignedIn, authenticate_sound}
use project_management.Identity.Tables.{Tables}
use project_management.Redis.Limiter.{allow}
use project_management.Redis.{Commands, Link}
use project_management.Server.{
  invite_tiers, invite_key, Endpoint, on_tables, limited, invitations_endpoint, invitations_route,
}
use project_management.Prelude.Outcome.{ok, err, panic}
use project_management.Prelude.{
  ℕ, true, Option, none, some, List, ◌∷◌, ◌++◌, Bytes, codes, ◌≡◌, ◌≢◌, ◌⊎◌, inl, inr, refl, sym,
  ap, ◌∙◌, arith, subst, Bool-cases, Option-cases,
}

refusal_status : (e : Failure) → (refusal_of e).status ≢ 201
unfolding status_of
refusal_status Failure.unauthenticated = omega arith
refusal_status e = omega arith

-- There is room, or the limiter could not be asked.
abbrev pub IsOpen : Answer → Type 0
IsOpen a = (a.room ≡ true) ⊎ (a.failed ≢ none)

module _ {S : Type 0} where
  limited-IsOpen :
      (ask : Bytes → S → Answer × S) (c : ℕ) (key : Bytes) (next : Endpoint S) (s : S) (t : Tables)
      → let r = limited ask fail_open (c ∷ key) next s t in
        (IsOpen (ask (c ∷ key) s).0 × (r ≡ next (ask (c ∷ key) s).1 t))
        ⊎ ((r.0.status ≡ 429) × (r.1 ≡ ((ask (c ∷ key) s).1, t)))
  unfolding limited rate_limit status_of
  limited-IsOpen ask c key next s t = elim (Option-cases (ask (c ∷ key) s).0.failed) [
    | inr (e, lost) ↦ simp lost (inl (inr (λ q. cc), refl))
    | inl answered ↦ elim (Bool-cases (ask (c ∷ key) s).0.room) [
      | inl room ↦ simp (answered, room) (inl (inl refl, refl))
      | inr full ↦ simp (answered, full) (inr (refl, refl))
    ]
  ]

module _ {S Addr Prefix : Type 0} (redis : Commands S) (link : S → Link) (format_int : ℕ → Bytes)
    (netip : Netip Addr Prefix) (trusted : List Prefix) where
  -- A request that invites: the cookie is signed in as an owner, and the limit did not stop it.
  abbrev pub IsInvited :
      Parts
      → Call
      → (looking : Sessions.Call) → (cookie : Option Bytes) → (body : Option (Bytes × Bytes)) → S
      → Tables
      → Reply × (S × Tables)
      → Type 0
  IsInvited parts call looking cookie body s t r =
      (token : Bytes) × (who : Authenticated) × (between : Tables) × (cookie ≡ some token)
      × (authenticate parts.sha256 looking token t ≡ (ok who, between))
      × IsSignedIn parts.sha256 looking token t who
      × IsOpen (allow redis link format_int invite_tiers (codes "invite:" ++ who.user_id) s).0
      × Invites parts call (some who) body between (r.0, r.1.1)

  -- The answer is no 201, and the tables are what the middleware left.
  abbrev pub IsTurnedAway :
      Parts
      → (looking : Sessions.Call) → (cookie : Option Bytes) → Tables
      → Reply × (S × Tables)
      → Type 0
  IsTurnedAway parts looking cookie t r =
      (r.0.status ≢ 201) × (r.1.1 ≡ looked_up parts.sha256 looking cookie t)

  -- Nobody is invited but by a request whose cookie is signed in as an account that is stored as owner,
  -- while the limiter of that account has room or cannot be asked; what is then recorded and sent is
  -- what the endpoint says. For all other requests the answer is no 201, and no table changes after
  -- the session was looked up.
  pub invitations_authorized :
      (parts : Parts) (call : Call) (looking : Sessions.Call) (cookie : Option Bytes)
      (body : Option (Bytes × Bytes)) (s : S) (t : Tables)
      → let r =
          invitations_route redis link format_int netip trusted parts call looking cookie body s
            t in
        IsTurnedAway parts looking cookie t r ⊎ IsInvited parts call looking cookie body s t r
  unfolding invitations_route require_session with_caller invitations_endpoint invite_key status_of
  invitations_authorized parts call looking none body s t =
      inl (λ q. refusal_status Failure.unauthenticated q, refl)
  invitations_authorized parts call looking (some token) body s t =
      go (authenticate parts.sha256 looking token t) refl
    where
      go :
          (x : Result Authenticated × Tables)
          → authenticate parts.sha256 looking token t ≡ x
          → let r =
              with_caller
                (λ v. (s, v))
                (λ caller v.
                  invitations_endpoint redis link format_int netip trusted parts call caller body s
                    v)
                x in
            ((r.0.status ≢ 201) × (r.1.1 ≡ x.1))
            ⊎ IsInvited parts call looking (some token) body s t r
      go (err e, between) p = inl (refusal_status e, refl)
      go (panic, between) p = inl (λ q. refusal_status Failure.no_rows q, refl)
      go (ok who, between) p =
          elim (limited-IsOpen (allow redis link format_int invite_tiers) b'i'
            (codes "nvite:" ++ who.user_id)
            (on_tables (create_invitation parts call (some who) body)) s between) [
              | inr (full, same) ↦
                  inl (λ q. absurd (omega (arith, full, q)), ap (λ (y : S × Tables). y.1) same)
              | inl (unstopped, same) ↦
                  elim (create_owner_alone parts call (some who) body between) [
                    | inl (kept, refused) ↦ inl (
                      λ q. refused (sym (ap (λ (y : Reply × (S × Tables)). y.0.status) same) ∙ q),
                      ap (λ (y : Reply × (S × Tables)). y.1.1) same ∙ kept,
                    )
                    | inr invites ↦ inr (
                      token,
                      who,
                      between,
                      refl,
                      p,
                      authenticate_sound parts.sha256 looking token t who between p,
                      unstopped,
                      subst
                          (λ (y : Reply × (S × Tables)).
                            Invites parts call (some who) body between (y.0, y.1.1))
                          (sym same) invites,
                    )
                  ]
            ]
