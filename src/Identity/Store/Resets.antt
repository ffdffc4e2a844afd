-- ===== src/Identity/Store/Resets.antt =====
-- repository/password_resets.sql.go.
use project_management.Identity.Failure.{unique_violation}
use project_management.Identity.Tables.{
  ResetRow, Fails, create_password_reset, get_password_reset_by_token_hash, use_password_reset,
  expire_open_password_resets, M, statement, one, find_row, count_rows, update_rows,
}
use project_management.Identity.Window.{Time, is_set}
use project_management.Prelude.Outcome.{ok, err}
use project_management.Prelude.{ℕ, Bool, not, ◌&&◌, none, some, ◌∷◌, Bytes, bytes_eq, ltb}

-- used_at IS NULL AND expires_at > now().
abbrev pub is_open : Time → ResetRow → Bool
is_open now r = not (is_set r.used_at) && ltb now r.expires_at

abbrev pub has_token : Bytes → ResetRow → Bool
has_token token_hash r = bytes_eq r.token_hash token_hash

unfoldable pub create_password_reset_row :
    Fails
    → (id : Bytes) → (now : Time) → (user_id token_hash : Bytes) → (expires_at : Time) → M ResetRow
create_password_reset_row fails id now user_id token_hash expires_at =
    statement fails create_password_reset λ t. elim (find_row (has_token token_hash) t.resets) [
      | some r ↦ (err unique_violation, t)
      | none ↦
          let r : ResetRow = record {
            id = id;
            user_id = user_id;
            token_hash = token_hash;
            expires_at = expires_at;
            used_at = none;
            created_at = now;
          } in
          (ok r, record t { resets = r ∷ t.resets })
    ]

unfoldable pub get_password_reset_row : Fails → Bytes → M ResetRow
get_password_reset_row fails token_hash =
    statement fails get_password_reset_by_token_hash
      λ t. (one (find_row (has_token token_hash) t.resets), t)

abbrev pub is_open_id : Time → Bytes → ResetRow → Bool
is_open_id now id r = bytes_eq r.id id && is_open now r

abbrev pub stamped : Time → ResetRow → ResetRow
stamped now r = record r { used_at = some now }

unfoldable pub use_password_reset_rows : Fails → Time → Bytes → M ℕ
use_password_reset_rows fails now id = statement fails use_password_reset λ t. (
  ok (count_rows (is_open_id now id) t.resets),
  record t { resets = update_rows (is_open_id now id) (stamped now) t.resets },
)

abbrev pub is_open_of : Time → Bytes → ResetRow → Bool
is_open_of now user_id r = bytes_eq r.user_id user_id && is_open now r

abbrev pub expired_at : Time → ResetRow → ResetRow
expired_at now r = record r { expires_at = now }

unfoldable pub expire_open_password_resets_rows : Fails → Time → Bytes → M ℕ
expire_open_password_resets_rows fails now user_id =
    statement fails expire_open_password_resets λ t. (
      ok (count_rows (is_open_of now user_id) t.resets),
      record t { resets = update_rows (is_open_of now user_id) (expired_at now) t.resets },
    )
