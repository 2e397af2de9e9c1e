-- ===== src/Restore.antt =====
-- Restoring an organization from an archive (domain/organizations/restore_user_mapping.py), and
-- the check of an archive before it (domain/organizations/export_verification.py).
pub mod Users
pub mod Mapped
pub mod Paths
pub mod Archive
pub mod Verify
pub mod Lookups
pub mod Genuine
pub mod Verified
mod Tests
