-- ===== src/Application.antt =====
-- internal/application: the use cases, a module each.
pub mod SessionIssuer
pub mod RevokeAllUserSessions
pub mod RevokeSession
pub mod RefreshAccessToken
pub mod Auth
pub mod FinishLogin
pub mod CreateInvite
pub mod FinishInviteRegistration
pub mod BootstrapRoot
pub mod BeginInviteRegistration
pub mod RevokeCompromisedChain
pub mod Calls
