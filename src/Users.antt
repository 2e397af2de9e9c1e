-- ===== src/Users.antt =====
-- Accounts, sign in and sessions (domain/users).
pub mod Email
pub mod Sessions
pub mod Lifetimes
pub mod Revocation
pub mod Throttle
pub mod Blocking
pub mod SignIn
pub mod Outcomes
mod Tests
