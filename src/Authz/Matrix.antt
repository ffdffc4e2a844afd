-- ===== src/Authz/Matrix.antt =====
-- The matrix: what a rank can do.
use project_management.Authz.{
  Caller, Action, Rule, rules, find_rule, decide, can, action_project_change_key,
  action_user_invite, action_project_delete, role_maintainer, role_viewer, role_owner,
}
use project_management.Prelude.{
  ◌≡◌, inl, inr, refl, sym, Bool, true, false, some, List, [], ◌∷◌, codes, bytes_eq, bytes_eq_iff,
  Bool-cases, Option-cases, All, arith, leb, ◌||◌, ◌&&◌,
}

-- What holds of every row holds of the row that is found, under the name that was asked for.
find_rule-All :
    (P : Action × Rule → Type 0) (a : Action) (r : Rule) (rs : List (Action × Rule))
    → All P rs
    → find_rule a rs ≡ some r
    → P (a, r)
unfolding find_rule
find_rule-All P a r [] h e = cc
find_rule-All P a r ((b, s) ∷ rs) (h, hs) e = elim (Bool-cases (bytes_eq a b)) [
  | inl hit ↦ let q : s ≡ r = cc (rw hit at e) in rw ((bytes_eq_iff a b).0 hit, ← q) h
  | inr miss ↦ find_rule-All P a r rs hs (rw miss at e)
]

-- A table over the rows, by evaluation.
abbrev Check : (Action → Rule → Bool) → Action × Rule → Type 0
Check p (a, r) = p a r ≡ true

all_rows : (Action → Rule → Bool) → List (Action × Rule) → Bool
all_rows p [] = true
all_rows p ((a, r) ∷ rs) = p a r && all_rows p rs

all_rows-All :
    (p : Action → Rule → Bool) (rs : List (Action × Rule)) → all_rows p rs ≡ true → All (Check p) rs
unfolding all_rows
all_rows-All p [] h = tt
all_rows-All p ((a, r) ∷ rs) h = (ground arith, all_rows-All p rs (ground arith))

-- Only the owner can invite an account or delete a project, and nobody at all, the owner included,
-- can change a project's key.
pub can_owner_alone :
    (c : Caller)
    → (can c action_user_invite ≡ leb role_owner c.role)
      × (can c action_project_delete ≡ leb role_owner c.role)
      × (can c action_project_change_key ≡ false)
unfolding can bytes_eq
can_owner_alone c = (refl, refl, refl)

-- The rows of docs/authorization.md, by who may: to look, to work on folders and projects, and what only
-- the owner may.
abbrev pub looking : List Action
looking =
    codes "project.view"
    ∷ codes "project.members.view"
    ∷ codes "folder.view"
    ∷ codes "folder.members.view"
    ∷ []

abbrev pub managing : List Action
managing =
    codes "project.create"
    ∷ codes "project.update"
    ∷ codes "project.archive"
    ∷ codes "project.members.manage"
    ∷ codes "project.move_to_folder"
    ∷ codes "folder.create"
    ∷ codes "folder.rename"
    ∷ codes "folder.delete"
    ∷ codes "folder.members.manage"
    ∷ []

abbrev pub owning : List Action
owning = codes "project.delete" ∷ codes "user.invite" ∷ []

-- Membership.
pub one_of : List Action → Action → Bool
one_of [] a = false
one_of (b ∷ bs) a = bytes_eq a b || one_of bs a

one_of-All :
    (P : Action → Type 0) (a : Action) (bs : List Action) → All P bs → one_of bs a ≡ true → P a
unfolding one_of
one_of-All P a [] h e = absurd (cc)
one_of-All P a (b ∷ bs) (h, hs) e = elim (Bool-cases (bytes_eq a b)) [
  | inl same ↦ rw ((bytes_eq_iff a b).0 same) h
  | inr other ↦ one_of-All P a bs hs (ground arith)
]

-- Who is granted what, by the three lists.
abbrev granted_by_lists : Caller → Action → Bool
granted_by_lists c a =
    (one_of looking a && leb role_viewer c.role)
    || (one_of managing a && leb role_maintainer c.role)
    || (one_of owning a && leb role_owner c.role)

abbrev IsListed : Action → Type 0
IsListed a = (c : Caller) → can c a ≡ granted_by_lists c a

abbrev listed_or_forbidden : Action → Rule → Bool
listed_or_forbidden a r = r.forbidden || one_of looking a || one_of managing a || one_of owning a

rules-listed : All (Check listed_or_forbidden) rules
unfolding all_rows one_of bytes_eq
rules-listed = all_rows-All listed_or_forbidden rules refl

or_false : (b : Bool) → (b || false) ≡ b
or_false true = refl
or_false false = refl

or_neither : (b : Bool) → (b || false || false) ≡ b
or_neither true = refl
or_neither false = refl

looking-IsListed : All IsListed looking
unfolding can one_of bytes_eq
looking-IsListed =
    let at_row : (c : Caller)
        → leb role_viewer c.role ≡ (leb role_viewer c.role || false || false) =
      λ c. sym (or_neither _) in
    (at_row, (at_row, (at_row, (at_row, tt))))

managing-IsListed : All IsListed managing
unfolding can one_of bytes_eq
managing-IsListed =
    let at_row : (c : Caller) → leb role_maintainer c.role ≡ (leb role_maintainer c.role || false) =
      λ c. sym (or_false _) in
    (at_row, (at_row, (at_row, (at_row, (at_row, (at_row, (at_row, (at_row, (at_row, tt)))))))))

owning-IsListed : All IsListed owning
unfolding can one_of bytes_eq
owning-IsListed = (λ c. refl, (λ c. refl, tt))

-- Whoever calls and whatever the action: it is granted exactly if it is one of the four that look and
-- the role is at least viewer, one of the nine that manage folders and projects and the role is at least
-- maintainer, or the deletion of a project or the invitation of an account and the role is owner or
-- above. All else, changing a project's key and what has no row, is granted to nobody.
pub can_matrix :
    (c : Caller) (action : Action)
    → can c action ≡ (
        (one_of looking action && leb 1 c.role)
        || (one_of managing action && leb 3 c.role)
        || (one_of owning action && leb 4 c.role))
unfolding can decide
can_matrix c action = elim (Bool-cases (one_of looking action)) [
  | inl look ↦ one_of-All IsListed action looking looking-IsListed look c
  | inr no_look ↦ elim (Bool-cases (one_of managing action)) [
    | inl manage ↦ one_of-All IsListed action managing managing-IsListed manage c
    | inr no_manage ↦ elim (Bool-cases (one_of owning action)) [
      | inl own ↦ one_of-All IsListed action owning owning-IsListed own c
      | inr no_own ↦
          rw (no_look, no_manage, no_own)
            (elim (Option-cases (find_rule action rules)) [
              | inl missing ↦ rw (can, missing) refl
              | inr (r, found) ↦
                  let row =
                    find_rule-All (Check listed_or_forbidden) action r rules rules-listed found in
                  let barred : r.forbidden ≡ true =
                    ground (arith, row, no_look, no_manage, no_own) in
                  rw (can, found, decide, barred) refl
            ])
    ]
  ]
]
