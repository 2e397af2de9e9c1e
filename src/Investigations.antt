-- ===== src/Investigations.antt =====
-- Investigations: who may do what with one, and who works on it (domain/investigations).
pub mod Access
pub mod Visible
pub mod Members
pub mod Ownership
pub mod Items
pub mod Service
pub mod Saving
pub mod ServiceLaws
pub mod Operations
pub mod Closed
pub mod Listed
pub mod Saved
mod Tests
