-- ===== src/Core.antt =====
-- The base of the application (src/signalscope/core).
pub mod Errors
pub mod Leases
mod Tests
