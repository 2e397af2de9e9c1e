-- ===== src/Tenancy.antt =====
-- Which content a user may reach (src/signalscope/domain/tenancy).
pub mod Scope
pub mod Policy
pub mod Visible
pub mod Agreement
pub mod Hidden
mod Tests
