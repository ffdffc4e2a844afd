-- ===== src/Identity/Invitation.antt =====
-- backend/internal/modules/identity/domain/invitation.go: when an invitation can be redeemed.
use project_management.Identity.Window.{Time, hour, is_past, is_set}
use project_management.Prelude.{ℕ, ◌+◌, ◌*◌, Bool, not, ◌&&◌, Option, Bytes}

abbrev pub invitation_window : ℕ
invitation_window = 7 * 24 * hour

pub record Invitation : Type 0 where
  pub id : Bytes
  pub email : Bytes
  pub role : Bytes
  pub invited_by : Bytes
  pub created_at : Time
  pub expires_at : Time
  pub accepted_at : Option Time

unfoldable pub new_invitation_expiry : Time → Time
new_invitation_expiry now = now + invitation_window

unfoldable pub is_expired : Invitation → Time → Bool
is_expired i now = is_past i.expires_at now

unfoldable pub is_accepted : Invitation → Bool
is_accepted i = is_set i.accepted_at

unfoldable pub is_usable : Invitation → Time → Bool
unfolding is_expired is_accepted
is_usable i now = not (is_accepted i) && not (is_expired i now)
