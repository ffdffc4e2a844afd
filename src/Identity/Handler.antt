-- ===== src/Identity/Handler.antt =====
-- backend/internal/modules/identity/handler: what the endpoints make of the services' answers.
pub mod Auth
pub mod Reply
pub mod Invitations
pub mod PasswordResets
pub mod Sessions
