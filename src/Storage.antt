-- ===== src/Storage.antt =====
-- internal/infrastructure/storage: the rows, the SQL statements, transactions and repositories.
pub mod Rows
pub mod Queries
pub mod Transaction
pub mod Preserves
pub mod Untouched
pub mod Users
pub mod Sessions
pub mod Credentials
pub mod Invites
pub mod Keys
pub mod Descendants
pub mod RoundTrips
