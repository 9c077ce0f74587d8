-- ===== src/Domain.antt =====
-- The domain entities of internal/domain, a module for each package.
pub mod User
pub mod Invite
pub mod Session
pub mod Credential
pub mod Key
