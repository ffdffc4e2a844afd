-- ===== src/Authz/Scope/Reach.antt =====
-- Who is let through, whatever the membership store answers.
use project_management.Authz.{action_project_move_to_folder, Caller, Action, can, role_owner}
use project_management.Authz.Scope.{
  Lookup, Memberships, Answer, scope_of, allow_in, allow_on_project, allow_on_folder,
  allow_move_project_to_folder,
}
use project_management.Prelude.{true, false, none, some, Bytes, codes, ◌≡◌, ◌⊎◌, ◌↔◌, arith}

-- The store was asked, answered without an error, and the answer was yes.
abbrev pub SaysYes : Lookup → Type 0
SaysYes l = l ≡ (true, none)

-- The caller reaches a resource: as the owner, or as a member of it.
abbrev pub Reaches : Caller → Lookup → Type 0
Reaches caller l = (caller.role ≡ role_owner) ⊎ SaysYes l

-- An error never comes with a yes, and the owner's exception is reported for the owner alone.
abbrev pub IsSafe : Caller → Answer → Type 0
IsSafe caller (yes_no, via_owner, e) =
    ((e ≡ none) ⊎ ((yes_no ≡ false) × (via_owner ≡ false)))
    × (via_owner ≡ true → caller.role ≡ role_owner)

allow_in-Reaches :
    (caller : Caller) (action : Action) (prefix : Bytes) (l : Lookup)
    → ((allow_in caller action (scope_of caller prefix l)).0 ≡ true)
      ↔ (Reaches caller l × (can caller action ≡ true))
unfolding scope_of allow_in
allow_in-Reaches caller action prefix (b, none) = ground arith
allow_in-Reaches caller action prefix (b, some e) = ground arith

-- A project action is allowed exactly if the caller reaches the project, as the owner or by a
-- membership that the store confirms without an error, and the caller's role permits the action.
allow_on_project-Reaches :
    (m : Memberships) (caller : Caller) (action : Action) (project_id : Bytes)
    → ((allow_on_project m caller action project_id).0 ≡ true)
      ↔ (Reaches caller (m.in_project caller.user_id project_id) × (can caller action ≡ true))
unfolding allow_on_project
allow_on_project-Reaches m caller action project_id =
    allow_in-Reaches caller action (codes "read project membership: ")
      (m.in_project caller.user_id project_id)

-- A folder action is allowed exactly if the caller reaches the folder, as the owner or by a
-- membership that the store confirms without an error, and the caller's role permits the action.
allow_on_folder-Reaches :
    (m : Memberships) (caller : Caller) (action : Action) (folder_id : Bytes)
    → ((allow_on_folder m caller action folder_id).0 ≡ true)
      ↔ (Reaches caller (m.in_folder caller.user_id folder_id) × (can caller action ≡ true))
unfolding allow_on_folder
allow_on_folder-Reaches m caller action folder_id =
    allow_in-Reaches caller action (codes "read folder membership: ")
      (m.in_folder caller.user_id folder_id)

-- Moving a project into a folder is allowed exactly if the caller reaches both and the role permits
-- the move: neither side alone is enough.
pub allow_move-Reaches :
    (m : Memberships) (caller : Caller) (project_id folder_id : Bytes)
    → ((allow_move_project_to_folder m caller project_id folder_id).0 ≡ true) ↔ (
        Reaches caller (m.in_project caller.user_id project_id)
        × Reaches caller (m.in_folder caller.user_id folder_id)
        × (can caller action_project_move_to_folder ≡ true))
unfolding allow_move_project_to_folder scope_of
allow_move-Reaches m caller project_id folder_id = ground arith

-- Each of the three decisions fails closed: an error of the store is never answered with a yes or
-- with the owner's exception, and that exception is reported only for an owner.
decisions_IsSafe :
    (m : Memberships) (caller : Caller) (action : Action) (project_id folder_id : Bytes)
    → IsSafe caller (allow_on_project m caller action project_id)
      × IsSafe caller (allow_on_folder m caller action folder_id)
      × IsSafe caller (allow_move_project_to_folder m caller project_id folder_id)
unfolding allow_on_project allow_on_folder allow_move_project_to_folder scope_of
decisions_IsSafe m caller action project_id folder_id = (ground arith, ground arith, ground arith)
