-- ===== src/Identity/Service.antt =====
-- backend/internal/modules/identity/service: the use cases over the tables.
pub mod Reset
pub mod Sessions
pub mod Guards
pub mod Invitations
pub mod LoginGuard
pub mod ResetRequest
pub mod Credentials
