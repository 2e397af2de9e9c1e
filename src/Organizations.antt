-- ===== src/Organizations.antt =====
-- Organizations: their members, the roles that members have, and invitations to join
-- (domain/organizations).
pub mod Model
pub mod Members
pub mod Changes
pub mod Owners
pub mod Privilege
pub mod Invitations
pub mod Pending
pub mod Joining
mod Tests
