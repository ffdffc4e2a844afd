-- ===== src/Identity/Session.antt =====
-- backend/internal/modules/identity/domain/session.go: the two windows of a session.
use project_management.Identity.Window.{Time, hour, is_past}
use project_management.Prelude.{ℕ, ◌+◌, ◌-◌, ◌*◌, Bool, Bytes, ltb, if◌then◌else◌}

abbrev pub session_idle_window : ℕ
session_idle_window = 14 * 24 * hour

abbrev pub session_absolute_window : ℕ
session_absolute_window = 90 * 24 * hour

abbrev pub session_renewal_floor : ℕ
session_renewal_floor = hour

pub record Session : Type 0 where
  pub id : Bytes
  pub user_id : Bytes
  pub created_at : Time
  pub last_seen_at : Time
  pub expires_at : Time

unfoldable pub new_session_expiry : Time → Time
new_session_expiry now = now + session_idle_window

unfoldable pub is_expired : Session → Time → Bool
is_expired s now = is_past s.expires_at now

unfoldable pub renewed_expiry : Session → Time → Time
renewed_expiry s now =
    let absolute = s.created_at + session_absolute_window in
    let renewed = now + session_idle_window in if ltb absolute renewed then absolute else renewed

-- `Sub` may be negative; then it is not above the floor, and neither is the 0 of `-` here.
unfoldable pub needs_renewal : Session → Time → Bool
unfolding renewed_expiry
needs_renewal s now = ltb session_renewal_floor (renewed_expiry s now - s.expires_at)
