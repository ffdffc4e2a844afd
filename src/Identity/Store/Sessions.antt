-- ===== src/Identity/Store/Sessions.antt =====
-- repository/sessions.sql.go.
pub mod Shown
use project_management.Fracdex.{bytes_lt}
use project_management.Identity.Failure.{unique_violation}
use project_management.Identity.Store.Users.{is_live}
use project_management.Identity.Tables.{
  UserRow, SessionRow, Fails, create_session, get_session_by_token_hash, touch_session,
  delete_session_by_token_hash, delete_session_for_user, delete_other_sessions_for_user,
  delete_all_sessions_for_user, list_sessions_by_user, M, statement, one, find_row, count_rows,
  update_rows, delete_rows,
}
use project_management.Identity.Window.{Time}
use project_management.Prelude.Outcome.{ok, err}
use project_management.Prelude.{
  ℕ, Bool, not, ◌&&◌, Option, none, some, List, [], ◌∷◌, Bytes, bytes_eq, if◌then◌else◌, ◌||◌, ltb,
  ◌==◌, ◌≡◌, ◌∙◌, ap, refl, true, inl, inr, suc, length, All, Bool-cases,
}

abbrev pub has_token : Bytes → SessionRow → Bool
has_token token_hash s = bytes_eq s.token_hash token_hash

unfoldable pub create_session_row :
    Fails
    → (id : Bytes) → (now : Time) → (user_id token_hash user_agent : Bytes) → (expires_at : Time)
    → M SessionRow
create_session_row fails id now user_id token_hash user_agent expires_at =
    statement fails create_session λ t. elim (find_row (has_token token_hash) t.sessions) [
      | some s ↦ (err unique_violation, t)
      | none ↦
          let s : SessionRow = record {
            id = id;
            user_id = user_id;
            token_hash = token_hash;
            user_agent = user_agent;
            created_at = now;
            last_seen_at = now;
            expires_at = expires_at;
          } in
          (ok s, record t { sessions = s ∷ t.sessions })
    ]

-- The join of a session with the live account that it belongs to.
abbrev pub live_owner : Bytes → UserRow → Bool
live_owner user_id u = bytes_eq u.id user_id && is_live u

unfoldable pub join_users_live :
    List UserRow → List SessionRow → (SessionRow → Bool) → Option (SessionRow × UserRow)
join_users_live users [] p = none
join_users_live users (s ∷ ss) p =
    let rest = join_users_live users ss p in
    if p s
    then (elim (find_row (live_owner s.user_id) users) [ none ↦ rest | some u ↦ some (s, u) ])
    else rest

unfoldable pub get_session_row : Fails → Bytes → M (SessionRow × UserRow)
unfolding join_users_live
get_session_row fails token_hash =
    statement fails get_session_by_token_hash
      λ t. (one (join_users_live t.users t.sessions (has_token token_hash)), t)

abbrev pub has_id : Bytes → SessionRow → Bool
has_id id s = bytes_eq s.id id

unfoldable pub touch_session_rows : Fails → (now : Time) → (id : Bytes) → (expires_at : Time) → M ℕ
touch_session_rows fails now id expires_at = statement fails touch_session λ t. (
  ok (count_rows (has_id id) t.sessions),
  record t {
    sessions =
        update_rows (has_id id) (λ s. record s { last_seen_at = now; expires_at = expires_at })
          t.sessions;
  },
)

abbrev pub delete_where : (SessionRow → Bool) → M ℕ
delete_where p t = (ok (count_rows p t.sessions), record t { sessions = delete_rows p t.sessions })

unfoldable pub delete_session_by_token_hash_rows : Fails → Bytes → M ℕ
delete_session_by_token_hash_rows fails token_hash =
    statement fails delete_session_by_token_hash (delete_where (has_token token_hash))

abbrev pub belongs_to : Bytes → SessionRow → Bool
belongs_to user_id s = bytes_eq s.user_id user_id

unfoldable pub delete_session_for_user_rows : Fails → (id user_id : Bytes) → M ℕ
delete_session_for_user_rows fails id user_id =
    statement fails delete_session_for_user
      (delete_where (λ s. has_id id s && belongs_to user_id s))

unfoldable pub delete_other_sessions_for_user_rows : Fails → (user_id current_id : Bytes) → M ℕ
delete_other_sessions_for_user_rows fails user_id current_id =
    statement fails delete_other_sessions_for_user
      (delete_where (λ s. belongs_to user_id s && not (has_id current_id s)))

unfoldable pub delete_all_sessions_for_user_rows : Fails → Bytes → M ℕ
delete_all_sessions_for_user_rows fails user_id =
    statement fails delete_all_sessions_for_user (delete_where (belongs_to user_id))

-- ORDER BY last_seen_at DESC, id. The text of a uuid sorts as the uuid does.
abbrev pub listed_before : SessionRow → SessionRow → Bool
listed_before r s =
    ltb s.last_seen_at r.last_seen_at
    || ((r.last_seen_at == s.last_seen_at) && not (bytes_lt s.id r.id))

insert_row : SessionRow → List SessionRow → List SessionRow
insert_row r [] = r ∷ []
insert_row r (s ∷ ss) =
    let rest = insert_row r ss in if listed_before r s then r ∷ s ∷ ss else s ∷ rest

abbrev pub is_shown : Bytes → Time → SessionRow → Bool
is_shown user_id now s = belongs_to user_id s && ltb now s.expires_at

unfoldable pub select_shown : Bytes → Time → List SessionRow → List SessionRow
unfolding insert_row
select_shown user_id now [] = []
select_shown user_id now (s ∷ ss) =
    let rest = select_shown user_id now ss in
    if is_shown user_id now s then insert_row s rest else rest

unfoldable pub list_sessions_by_user_rows : Fails → Time → Bytes → M (List SessionRow)
list_sessions_by_user_rows fails now user_id =
    statement fails list_sessions_by_user λ t. (ok (select_shown user_id now t.sessions), t)
