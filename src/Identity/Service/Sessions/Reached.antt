-- ===== src/Identity/Service/Sessions/Reached.antt =====
-- backend/internal/modules/identity/service/session.go: the tables that its calls leave.
use project_management.Identity.Service.Sessions.{
  Call, issue, authenticate, revoke, revoke_by_id, revoke_others,
}
use project_management.Identity.Tables.{SessionRow, Tables, delete_rows}
use project_management.Identity.Window.{Time}
use project_management.Prelude.{◌+◌, ◌≤◌, Bool, All, [], Bytes, ◌≡◌, ◌≢◌}

module _ (sha256 : Bytes → Bytes) (is_uuid : Bytes → Bool) (skew : Time) where
  -- The tables that are reached from no session at all by calls whose application clock is at most
  -- `skew` ahead of the database's. Where a session is issued the id is new.
  pub data Reached : Tables → Type 0 where
    start : (t : Tables) → t.sessions ≡ [] → Reached t
    issued :
        (t : Tables) (call : Call) (user_id agent : Bytes)
        → Reached t
        → call.clock ≤ call.db_now + skew
        → All (λ s. s.id ≢ call.new_id) t.sessions
        → Reached (issue sha256 call user_id agent t).1
    used :
        (t : Tables) (call : Call) (token : Bytes)
        → Reached t
        → call.clock ≤ call.db_now + skew
        → Reached (authenticate sha256 call token t).1
    revoked :
        (t : Tables) (call : Call) (token : Bytes)
        → Reached t
        → Reached (revoke sha256 call token t).1
    revoked_by_id :
        (t : Tables) (call : Call) (user_id id : Bytes)
        → Reached t
        → Reached (revoke_by_id is_uuid call user_id id t).1
    revoked_others :
        (t : Tables) (call : Call) (user_id id : Bytes)
        → Reached t
        → Reached (revoke_others is_uuid call user_id id t).1
    -- what other services do: they leave the sessions as they are, or delete some
    elsewhere :
        (t t' : Tables) (p : SessionRow → Bool)
        → Reached t
        → t'.sessions ≡ delete_rows p t.sessions
        → Reached t'
