-- ===== src/Authz.antt =====
-- backend/internal/authz/role.go and can.go: account roles, the matrix of actions, and the right half
-- of a decision. The scope half is in Scope.
pub mod Roles
pub mod Matrix
pub mod Scope
mod Tests
use project_management.Fracdex.{bytes_lt}
use project_management.Prelude.{
  ℕ, zero, suc, ◌+◌, ◌/◌, ◌%◌, Bool, true, false, Option, none, some, List, [], ◌∷◌, ◌++◌, Bytes,
  codes, bytes_eq, leb, ltb, ◌==◌, if◌then◌else◌,
}

-- `type Role uint8`: the number is the rank.
abbrev pub Role : Type 0
Role = ℕ

abbrev pub role_none : Role
role_none = 0

abbrev pub role_viewer : Role
role_viewer = 1

abbrev pub role_contributor : Role
role_contributor = 2

abbrev pub role_maintainer : Role
role_maintainer = 3

abbrev pub role_owner : Role
role_owner = 4

-- ErrUnknownRole.
pub data RoleError : Type 0 where
  unknown_role : RoleError

-- The role comes with the error, as in Go.
unfoldable pub parse_role : Bytes → Role × Option RoleError
parse_role name =
    if bytes_eq name (codes "viewer")
    then (role_viewer, none)
    else if bytes_eq name (codes "contributor")
    then (role_contributor, none)
    else if bytes_eq name (codes "maintainer")
    then (role_maintainer, none)
    else if bytes_eq name (codes "owner")
    then (role_owner, none)
    else (role_none, some unknown_role)

-- A uint8 in decimal, as `%d` prints it.
decimal : ℕ → Bytes
decimal n =
    if ltb n 10
    then (n + b'0') ∷ []
    else if ltb n 100
    then (n / 10 + b'0') ∷ (n % 10 + b'0') ∷ []
    else (n / 100 + b'0') ∷ (n / 10 % 10 + b'0') ∷ (n % 10 + b'0') ∷ []

unfoldable pub role_string : Role → Bytes
unfolding decimal
role_string r =
    if r == role_viewer
    then codes "viewer"
    else if r == role_contributor
    then codes "contributor"
    else if r == role_maintainer
    then codes "maintainer"
    else if r == role_owner
    then codes "owner"
    else if r == role_none
    then codes "none"
    else codes "role(" ++ (decimal r ++ codes ")")

pub at_least : Role → Role → Bool
at_least r min = leb min r

pub record Caller : Type 0 where
  pub user_id : Bytes
  pub role : Role

-- `type Action string`.
abbrev pub Action : Type 0
Action = Bytes

pub record Rule : Type 0 where
  pub minimum : Role
  pub forbidden : Bool

-- A rule's literal leaves out what is zero.
abbrev granted_from : Role → Rule
granted_from r = record { minimum = r; forbidden = false }

abbrev forbidden_to_all : Rule
forbidden_to_all = record { minimum = role_none; forbidden = true }

-- The `rules` map, a key to each action that has a row.
abbrev pub rules : List (Action × Rule)
rules =
    (codes "project.create", granted_from role_maintainer)
    ∷ (codes "folder.create", granted_from role_maintainer)
    ∷ (codes "project.view", granted_from role_viewer)
    ∷ (codes "project.members.view", granted_from role_viewer)
    ∷ (codes "folder.view", granted_from role_viewer)
    ∷ (codes "folder.members.view", granted_from role_viewer)
    ∷ (codes "project.update", granted_from role_maintainer)
    ∷ (codes "project.archive", granted_from role_maintainer)
    ∷ (codes "project.members.manage", granted_from role_maintainer)
    ∷ (codes "project.move_to_folder", granted_from role_maintainer)
    ∷ (codes "folder.rename", granted_from role_maintainer)
    ∷ (codes "folder.delete", granted_from role_maintainer)
    ∷ (codes "folder.members.manage", granted_from role_maintainer)
    ∷ (codes "project.delete", granted_from role_owner)
    ∷ (codes "user.invite", granted_from role_owner)
    ∷ (codes "project.change_key", forbidden_to_all)
    ∷ []

pub find_rule : Action → List (Action × Rule) → Option Rule
find_rule action [] = none
find_rule action ((a, r) ∷ rest) = if bytes_eq action a then some r else find_rule action rest

pub decide : Caller → Rule → Bool
unfolding at_least
decide caller r =
    if r.forbidden
    then false
    else if r.minimum == role_none
    then false
    else at_least caller.role r.minimum

unfoldable pub can : Caller → Action → Bool
unfolding find_rule decide
can caller action = elim (find_rule action rules) [ none ↦ false | some r ↦ decide caller r ]

-- `slices.Sort`, of strings.
unfoldable insert_action : Action → List Action → List Action
insert_action a [] = a ∷ []
insert_action a (b ∷ bs) =
    let rest = insert_action a bs in if bytes_lt b a then b ∷ rest else a ∷ b ∷ bs

unfoldable sorted_keys : List (Action × Rule) → List Action
unfolding insert_action
sorted_keys [] = []
sorted_keys ((a, r) ∷ rest) = insert_action a (sorted_keys rest)

-- `Actions`.
unfoldable actions : List Action
unfolding sorted_keys
actions = sorted_keys rules

abbrev pub action_project_move_to_folder : Action
action_project_move_to_folder = codes "project.move_to_folder"

abbrev pub action_project_change_key : Action
action_project_change_key = codes "project.change_key"

abbrev pub action_user_invite : Action
action_user_invite = codes "user.invite"

abbrev pub action_project_delete : Action
action_project_delete = codes "project.delete"
