-- ===== src/Identity/Handler/Invitations/Owner.antt =====
-- Who invites: an account that is stored as owner.
use project_management.Authz.{Role, RoleError, unknown_role, role_none, role_string, parse_role}
use project_management.Authz.Roles.{IsIssued, parse_role-role_string}
use project_management.Authz.Matrix.{can_owner_alone}
use project_management.Httpx.Errors.{FieldError, status_of}
use project_management.Identity.Failure.{Failure, invalid_email}
use project_management.Identity.Handler.Invitations.{
  Parts, may_invite_as, may_invite, created_reply, write_create_error, create_checked, create_for,
  create_invitation,
}
use project_management.Identity.Handler.Reply.{Reply}
use project_management.Identity.Service.Invitations.{
  Call, Created, refused, crashed, delivered, undelivered,
}
use project_management.Identity.Service.Invitations.Creating.{sent, Sent, create_lem}
use project_management.Identity.Service.Sessions.{Authenticated}
use project_management.Identity.Tables.{Tables}
use project_management.Prelude.{
  true, Option, none, some, List, [], ◌∷◌, Bytes, codes, ◌≡◌, ◌≢◌, ◌⊎◌, inl, inr, sym, ◌∙◌, refl,
  arith, ap, Bool-cases,
}

may_invite-owner : (who : Authenticated) → may_invite who ≡ true → who.role ≡ codes "owner"
unfolding may_invite role_string
may_invite-owner who e = go (parse_role who.role) refl e (parse_role-role_string who.role)
  where
    go :
        (p : Role × Option RoleError)
        → parse_role who.role ≡ p
        → may_invite_as who.user_id p ≡ true
        → ((r : Role) × IsIssued r × (role_string r ≡ who.role) × (parse_role who.role ≡ (r, none)))
          ⊎ (((r : Role) → IsIssued r → role_string r ≢ who.role)
              × (parse_role who.role ≡ (role_none, some unknown_role)))
        → who.role ≡ codes "owner"
    go (role, some x) q f k = absurd (cc)
    go (role, none) q f (inr (others, k)) = absurd (cc)
    go (role, none) q f (inl (r, issued, named, k)) =
        let same : r ≡ role = ap (λ (p : Role × Option RoleError). p.0) (sym k ∙ q) in
        let (rule, deleting, rekeying) =
          can_owner_alone (record { user_id = who.user_id; role = role }) in
        let top : r ≡ 4 = ground arith in sym named ∙ ap role_string top

refused_status : (f : Failure) → (write_create_error f).status ≢ 201
unfolding write_create_error status_of
refused_status invalid_email = omega arith
refused_status f = omega arith

module _ (parts : Parts) where
  -- The answer is no 201 and no table has changed.
  abbrev pub Unchanged : Tables → Reply × Tables → Type 0
  Unchanged t r = (r.1 ≡ t) × (r.0.status ≢ 201)

  -- The owner's invitation is recorded and its link was sent.
  abbrev pub Invites :
      Call → Option Authenticated → Option (Bytes × Bytes) → Tables → Reply × Tables → Type 0
  Invites call caller body t r =
      (who : Authenticated) × (email role : Bytes) × (made : Created) × (caller ≡ some who)
      × (who.role ≡ codes "owner")
      × (body ≡ some (email, role))
      × Sent parts.lower parts.sha256 parts.parse_address parts.join_path call who.user_id email
          role t r.1 made
      × (r.0 ≡ created_reply made)

  unsent_reply : (made : Created) → sent parts.lower made ≡ none → (created_reply made).status ≢ 201
  unfolding created_reply status_of
  unsent_reply (refused f) e = refused_status f
  unsent_reply crashed e = omega arith
  unsent_reply (delivered i m) e = absurd (some_ne_none e)
    where
      some_ne_none : {A : Type 0} {x : A} → some x ≢ none
      some_ne_none q = cc
  unsent_reply (undelivered i m) e = omega arith

  -- Only a caller who is stored as owner invites anybody. For all others, for a body that does not fit
  -- and for an invitation that the service refuses, the answer is no 201 and no table changes; or else
  -- the caller is an owner, the invitation of the body is recorded in that account's name, its link was
  -- sent as the theorem on the service says, and the answer is that of the service.
  pub create_owner_alone :
      (call : Call) (caller : Option Authenticated) (body : Option (Bytes × Bytes)) (t : Tables)
      → let r = create_invitation parts call caller body t in
        Unchanged t r ⊎ Invites call caller body t r
  unfolding create_invitation create_for create_checked status_of
  create_owner_alone call none body t = inl (refl, omega arith)
  create_owner_alone call (some who) body t = elim (Bool-cases (may_invite who)) [
    | inr barred ↦ simp barred (inl (refl, λ q. absurd (omega arith)))
    | inl allowed ↦ simp allowed (of_body allowed body)
  ]
    where
      checked :
          may_invite who ≡ true
          → (email role : Bytes) (ds : List FieldError)
          → let r = create_checked parts call who email role ds t in
            Unchanged t r ⊎ Invites call (some who) (some (email, role)) t r
      checked allowed email role (d ∷ ds) = inl (refl, λ q. absurd (omega arith))
      checked allowed email role [] =
          elim (create_lem parts.lower parts.sha256 parts.parse_address parts.join_path call
            who.user_id email role t) [
              | inl (unsent, same) ↦ inl (same, unsent_reply _ unsent)
              | inr recorded ↦
                  inr
                    (who, email, role, _, refl, may_invite-owner who allowed, refl, recorded, refl)
            ]

      of_body :
          may_invite who ≡ true
          → (body : Option (Bytes × Bytes))
          → let r = create_for parts call who body t in
            Unchanged t r ⊎ Invites call (some who) body t r
      of_body allowed none = inl (refl, λ q. absurd (omega arith))
      of_body allowed (some (email, role)) = checked allowed email role _
