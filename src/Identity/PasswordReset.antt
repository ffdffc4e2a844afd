-- ===== src/Identity/PasswordReset.antt =====
-- backend/internal/modules/identity/domain/passwordreset.go: when a reset link can be used.
use project_management.Identity.Window.{Time, hour, is_past, is_set}
use project_management.Prelude.{ℕ, ◌+◌, Bool, not, ◌&&◌, Option, Bytes}

abbrev pub password_reset_window : ℕ
password_reset_window = hour

pub record PasswordReset : Type 0 where
  pub id : Bytes
  pub user_id : Bytes
  pub used_at : Option Time
  pub created_at : Time
  pub expires_at : Time

unfoldable pub new_password_reset_expiry : Time → Time
new_password_reset_expiry now = now + password_reset_window

unfoldable pub is_expired : PasswordReset → Time → Bool
is_expired r now = is_past r.expires_at now

unfoldable pub is_used : PasswordReset → Bool
is_used r = is_set r.used_at

unfoldable pub is_usable : PasswordReset → Time → Bool
unfolding is_expired is_used
is_usable r now = not (is_used r) && not (is_expired r now)
