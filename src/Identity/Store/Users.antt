-- ===== src/Identity/Store/Users.antt =====
-- repository/users.sql.go: the statements on users. `lower` of SQL and the order of names depend on the
-- collation of the database, and are parameters.
use project_management.Identity.Failure.{unique_violation}
use project_management.Identity.Tables.{
  UserRow, Fails, get_user_by_email, create_user, update_user_password_hash, set_user_password_hash,
  get_user_by_id, list_users, soft_delete_user, M, statement, one, find_row, count_rows,
  update_rows,
}
use project_management.Identity.Window.{Time, is_set}
use project_management.Prelude.Outcome.{ok, err}
use project_management.Prelude.{
  ℕ, Bool, not, ◌&&◌, none, some, List, [], ◌∷◌, ◌++◌, Bytes, codes, bytes_eq, if◌then◌else◌,
}

-- A row of the view users_live.
abbrev pub is_live : UserRow → Bool
is_live u = not (is_set u.deleted_at)

abbrev pub has_email : (Bytes → Bytes) → Bytes → UserRow → Bool
has_email lower email u = is_live u && bytes_eq (lower u.email) (lower email)

unfoldable pub get_user_by_email_row : (Bytes → Bytes) → Fails → Bytes → M UserRow
get_user_by_email_row lower fails email =
    statement fails get_user_by_email λ t. (one (find_row (has_email lower email) t.users), t)

-- A live account with the same address, in whatever case, breaks users_email_key.
unfoldable pub create_user_row :
    (Bytes → Bytes)
    → Fails
    → (id : Bytes) → Time
    → (email name password_hash role : Bytes) → M UserRow
create_user_row lower fails id now email name password_hash role = statement fails create_user λ t.
    elim (find_row (has_email lower email) t.users) [
      | some u ↦ (err unique_violation, t)
      | none ↦
          let u : UserRow = record {
            id = id;
            email = email;
            name = name;
            password_hash = password_hash;
            timezone = codes "Asia/Jakarta";
            role = role;
            created_at = now;
            updated_at = now;
            deleted_at = none;
          } in
          (ok u, record t { users = u ∷ t.users })
    ]

abbrev pub has_id : Bytes → UserRow → Bool
has_id id u = bytes_eq u.id id && is_live u

-- A rehash, which another one may have overtaken: the old hash is matched.
unfoldable pub update_user_password_hash_rows :
    Fails → Time → (id new_hash current_hash : Bytes) → M ℕ
update_user_password_hash_rows fails now id new_hash current_hash =
    statement fails update_user_password_hash λ t.
      let p = λ (u : UserRow). has_id id u && bytes_eq u.password_hash current_hash in
      (
        ok (count_rows p t.users),
        record t {
          users =
              update_rows p (λ u. record u { password_hash = new_hash; updated_at = now }) t.users;
        },
      )

abbrev pub with_password : Time → Bytes → UserRow → UserRow
with_password now password_hash u = record u { password_hash = password_hash; updated_at = now }

-- RETURNING gives the row as updated.
unfoldable pub set_user_password_hash_row : Fails → Time → (id password_hash : Bytes) → M UserRow
set_user_password_hash_row fails now id password_hash = statement fails set_user_password_hash λ t.
    let users = update_rows (has_id id) (with_password now password_hash) t.users in
    (one (find_row (has_id id) users), record t { users = users })

unfoldable pub get_user_by_id_row : Fails → (id : Bytes) → M UserRow
get_user_by_id_row fails id =
    statement fails get_user_by_id λ t. (one (find_row (has_id id) t.users), t)

-- ORDER BY lower(name), with `at_most` for the order of the collation; names that it does not tell apart
-- keep the order of the table.
module _ (lower : Bytes → Bytes) (at_most : Bytes → Bytes → Bool) where
  unfoldable pub insert_user : UserRow → List UserRow → List UserRow
  insert_user u [] = u ∷ []
  insert_user u (v ∷ vs) =
      let rest = insert_user u vs in
      if at_most (lower u.name) (lower v.name) then u ∷ v ∷ vs else v ∷ rest

  unfoldable pub select_users : List UserRow → List UserRow
  unfolding insert_user
  select_users [] = []
  select_users (u ∷ us) =
      let rest = select_users us in if is_live u then insert_user u rest else rest

  unfoldable pub list_users_rows : Fails → M (List UserRow)
  list_users_rows fails = statement fails list_users λ t. (ok (select_users t.users), t)

abbrev pub masked : Time → UserRow → UserRow
masked now u = record u {
  deleted_at = some now;
  email = codes "deleted+" ++ (u.id ++ codes "@invalid");
  name = codes "Pengguna dihapus";
  updated_at = now;
}

-- Masking, not deleting: the row stays, out of the view.
unfoldable pub soft_delete_user_rows : Fails → (now : Time) → (id : Bytes) → M ℕ
soft_delete_user_rows fails now id = statement fails soft_delete_user λ t. (
  ok (count_rows (has_id id) t.users),
  record t { users = update_rows (has_id id) (masked now) t.users },
)
