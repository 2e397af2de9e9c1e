-- ===== src/Retention.antt =====
-- How long an organization keeps its security audit events (domain/retention).
pub mod Service
pub mod Laws
pub mod Emptied
pub mod Refines
mod Tests
