-- ===== src/Server.antt =====
-- The REST server in src/main/java: which method answers a request, the tokens of the users who are
-- logged in, and what becomes of a contract.
pub mod Api
mod Tests
pub mod Credentials
pub mod Users
pub mod Contracts
pub mod Authentifier
