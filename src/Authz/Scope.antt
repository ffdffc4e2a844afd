-- ===== src/Authz/Scope.antt =====
-- backend/internal/authz/scope.go: the scope half of a decision, and both halves together. The
-- membership store is a parameter, since the project module that supplies it is not written yet.
pub mod Reach
use project_management.Authz.{Caller, Action, can, role_owner, action_project_move_to_folder}
use project_management.Prelude.{
  Bool, true, false, not, ◌||◌, Option, none, some, Bytes, codes, ◌++◌, ◌==◌, if◌then◌else◌,
}

-- `(bool, error)` of a lookup; an error is its text.
abbrev pub Lookup : Type 0
Lookup = Bool × Option Bytes

-- The interface `Memberships`, whose answers may be errors.
pub record Memberships : Type 0 where
  pub in_project : Bytes → Bytes → Lookup
  pub in_folder : Bytes → Bytes → Lookup

-- `(inScope, viaOwner bool, err error)`, and the same three of a decision.
abbrev pub Answer : Type 0
Answer = Bool × Bool × Option Bytes

-- The owner's exception, or what the lookup says. `fmt.Errorf` puts the prefix before the error.
pub scope_of : Caller → Bytes → Lookup → Answer
scope_of caller prefix (member, failure) =
    if caller.role == role_owner
    then (true, true, none)
    else elim failure [ some e ↦ (false, false, some (prefix ++ e)) | none ↦ (member, false, none) ]

pub in_project_scope : Memberships → Caller → Bytes → Answer
unfolding scope_of
in_project_scope m caller project_id =
    scope_of caller (codes "read project membership: ") (m.in_project caller.user_id project_id)

pub in_folder_scope : Memberships → Caller → Bytes → Answer
unfolding scope_of
in_folder_scope m caller folder_id =
    scope_of caller (codes "read folder membership: ") (m.in_folder caller.user_id folder_id)

-- The right half, asked only of a caller in scope.
pub allow_in : Caller → Action → Answer → Answer
allow_in caller action (in_scope, via_owner, some e) = (false, false, some e)
allow_in caller action (in_scope, via_owner, none) =
    if not in_scope then (false, false, none) else (can caller action, via_owner, none)

pub allow_on_project : Memberships → Caller → Action → Bytes → Answer
unfolding in_project_scope allow_in
allow_on_project m caller action project_id =
    allow_in caller action (in_project_scope m caller project_id)

pub allow_on_folder : Memberships → Caller → Action → Bytes → Answer
unfolding in_folder_scope allow_in
allow_on_folder m caller action folder_id =
    allow_in caller action (in_folder_scope m caller folder_id)

-- The second half of the move, once the project is in scope.
pub allow_move_into : Memberships → Caller → Bytes → Bool → Answer → Answer
allow_move_into m caller folder_id owner_over_project (over_folder, owner_over_folder, some e) =
    (false, false, some e)
allow_move_into m caller folder_id owner_over_project (over_folder, owner_over_folder, none) =
    if not over_folder
    then (false, false, none)
    else (can caller action_project_move_to_folder, owner_over_project || owner_over_folder, none)

pub allow_move_from : Memberships → Caller → Bytes → Answer → Answer
unfolding in_folder_scope allow_move_into
allow_move_from m caller folder_id (over_project, owner_over_project, some e) =
    (false, false, some e)
allow_move_from m caller folder_id (over_project, owner_over_project, none) =
    if not over_project
    then (false, false, none)
    else allow_move_into m caller folder_id owner_over_project (in_folder_scope m caller folder_id)

pub allow_move_project_to_folder : Memberships → Caller → Bytes → Bytes → Answer
unfolding in_project_scope allow_move_from
allow_move_project_to_folder m caller project_id folder_id =
    allow_move_from m caller folder_id (in_project_scope m caller project_id)
