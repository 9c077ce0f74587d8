-- ===== src/Tests.antt =====
-- Runs of the use cases on concrete tables.
mod Fixtures
mod Sessions
mod Calls
mod Logins
mod Chains
mod Requests
mod Accounts
mod Sealed
mod Signed
mod Ids
mod Tokens
mod Endpoints
mod Passkeys
mod Groups
