-- ===== src/Identity/Store.antt =====
-- The tables of the identity module and the statements that its repository runs on them, from
-- backend/internal/modules/identity/repository. A statement may fail at any time; a caller says by a
-- function of the statement's name which ones do. Those failures stand for constraints that are not
-- written out here (foreign keys, CHECKs) too.
pub mod Users
pub mod Sessions
pub mod Resets
pub mod Invitations
