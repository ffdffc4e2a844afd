-- ===== src/Authz/Roles.antt =====
-- Role names: `ParseRole` and `String` are inverse to one another on the issued roles.
use project_management.Authz.{Role, unknown_role, parse_role, role_string, role_none}
use project_management.Prelude.{
  ◌≤◌, ◌≡◌, ◌≢◌, ◌⊎◌, inl, inr, sym, true, false, none, some, Bytes, codes, bytes_eq, bytes_eq_iff,
  Bool-cases, arith,
}

-- The roles that an account can have, viewer to owner.
abbrev pub IsIssued : Role → Type 0
IsIssued r = (1 ≤ r) × (r ≤ 4)

named : (name s : Bytes) → bytes_eq name s ≡ true → s ≡ name
named name s e = sym ((bytes_eq_iff name s).0 e)

unnamed : (name s : Bytes) → bytes_eq name s ≡ false → s ≢ name
unnamed name s e q = cc (e, (bytes_eq_iff name s).1 (sym q))

IsIssued-cases : (r : Role) → IsIssued r → (r ≡ 1) ⊎ ((r ≡ 2) ⊎ ((r ≡ 3) ⊎ (r ≡ 4)))
IsIssued-cases r (lo, hi) = ground arith

-- `ParseRole` gives back the role whose name it is given, with no error, if there is such a role.
-- Every other name gives RoleNone with ErrUnknownRole.
pub parse_role-role_string :
    (name : Bytes)
    → ((r : Role) × IsIssued r × (role_string r ≡ name) × (parse_role name ≡ (r, none)))
      ⊎ (((r : Role) → IsIssued r → role_string r ≢ name)
          × (parse_role name ≡ (role_none, some unknown_role)))
unfolding parse_role role_string
parse_role-role_string name = elim (Bool-cases (bytes_eq name (codes "viewer"))) [
  | inl e ↦ inl (1, (omega arith), named name _ e, rw e)
  | inr n1 ↦ elim (Bool-cases (bytes_eq name (codes "contributor"))) [
    | inl e ↦ inl (2, (omega arith), named name _ e, rw (n1, e))
    | inr n2 ↦ elim (Bool-cases (bytes_eq name (codes "maintainer"))) [
      | inl e ↦ inl (3, (omega arith), named name _ e, rw (n1, n2, e))
      | inr n3 ↦ elim (Bool-cases (bytes_eq name (codes "owner"))) [
        | inl e ↦ inl (4, (omega arith), named name _ e, rw (n1, n2, n3, e))
        | inr n4 ↦ inr (
          λ r i e. elim (IsIssued-cases r i) [
            | inl q ↦ unnamed name _ n1 (rw q at e)
            | inr (inl q) ↦ unnamed name _ n2 (rw q at e)
            | inr (inr (inl q)) ↦ unnamed name _ n3 (rw q at e)
            | inr (inr (inr q)) ↦ unnamed name _ n4 (rw q at e)
          ],
          rw (n1, n2, n3, n4),
        )
      ]
    ]
  ]
]
