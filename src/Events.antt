-- ===== src/Events.antt =====
-- Events, their evidence and their clusters (domain/events), and the linking of events that report
-- the same thing.
pub mod Model
pub mod Linking
pub mod LinkLaws
pub mod Owners
pub mod Canonical
pub mod Relinked
mod Tests
