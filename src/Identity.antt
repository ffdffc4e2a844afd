-- ===== src/Identity.antt =====
-- backend/internal/modules/identity: sessions, invitations and password resets.
pub mod Base64
pub mod Token
pub mod Window
pub mod Utf8
pub mod Text
pub mod Session
pub mod Invitation
pub mod PasswordReset
pub mod Failure
pub mod Tables
pub mod Atomic
pub mod Stamp
pub mod Store
pub mod Password
pub mod Service
pub mod Handler
pub mod Fixtures
mod Tests
mod SessionTests
mod GuardTests
pub mod InvitationTests
mod SignInTests
pub mod LoginTests
pub mod HandlerTests
