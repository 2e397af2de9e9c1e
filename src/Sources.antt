-- ===== src/Sources.antt =====
-- Sources (domain/sources): when each is ingested next.
pub mod Scheduling
pub mod Times
mod Tests
