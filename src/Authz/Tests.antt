-- ===== src/Authz/Tests.antt =====
-- The authorization theorems at concrete callers.
use project_management.Authz.Matrix.{looking, managing, owning, one_of, can_matrix}
use project_management.Authz.Scope.Reach.{Reaches, allow_move-Reaches}
use project_management.Authz.Scope.{Memberships, allow_move_project_to_folder}
use project_management.Authz.{
  Caller, can, action_project_move_to_folder, insert_action, sorted_keys, actions,
}
use project_management.Fracdex.{bytes_lt}
use project_management.Prelude.{
  ◌≡◌, ◌↔◌, true, false, ◌&&◌, ◌||◌, leb, none, some, [], ◌∷◌, codes, refl, bytes_eq,
}

abbrev viewer : Caller
viewer = record { user_id = codes "u1"; role = 1 }

abbrev maintainer : Caller
maintainer = record { user_id = codes "u3"; role = 3 }

-- `u3` is in the project "p" and in no folder; folder lookups fail.
abbrev store : Memberships
store = record {
  in_project = λ user project. (bytes_eq user (codes "u3") && bytes_eq project (codes "p"), none);
  in_folder = λ user folder. (false, some (codes "connection refused"));
}

-- A maintainer who invites.
can_matrix_example : can maintainer (codes "user.invite") ≡ (
    (one_of looking (codes "user.invite") && leb 1 3)
    || (one_of managing (codes "user.invite") && leb 3 3)
    || (one_of owning (codes "user.invite") && leb 4 3))
can_matrix_example = can_matrix maintainer (codes "user.invite")

allow_move-Reaches_example :
    ((allow_move_project_to_folder store maintainer (codes "p") (codes "f")).0 ≡ true) ↔ (
      Reaches maintainer (store.in_project (codes "u3") (codes "p"))
      × Reaches maintainer (store.in_folder (codes "u3") (codes "f"))
      × (can maintainer action_project_move_to_folder ≡ true))
allow_move-Reaches_example = allow_move-Reaches store maintainer (codes "p") (codes "f")

-- The matrix in the order of its keys.
actions_run :
    actions
    ≡ codes "folder.create"
      ∷ codes "folder.delete"
      ∷ codes "folder.members.manage"
      ∷ codes "folder.members.view"
      ∷ codes "folder.rename"
      ∷ codes "folder.view"
      ∷ codes "project.archive"
      ∷ codes "project.change_key"
      ∷ codes "project.create"
      ∷ codes "project.delete"
      ∷ codes "project.members.manage"
      ∷ codes "project.members.view"
      ∷ codes "project.move_to_folder"
      ∷ codes "project.update"
      ∷ codes "project.view"
      ∷ codes "user.invite"
      ∷ []
unfolding actions sorted_keys insert_action bytes_lt
actions_run = refl
