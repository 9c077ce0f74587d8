-- ===== src/Http.antt =====
-- internal/presentation/http, a module for each file.
pub mod ClientIp
pub mod Errors
pub mod Requests
pub mod Auth
pub mod Handler
pub mod Server
pub mod Operations
