-- ===== src/Jobs.antt =====
-- The job queues of the workers: the columns and the life cycle that the job tables of
-- src/signalscope/domain (processing, ingestion, claims, entities, events, search) share.
pub mod Model
pub mod Attempts
pub mod Queue
pub mod Run
pub mod Rows
pub mod Consistency
pub mod Fencing
pub mod Order
pub mod History
pub mod Recorded
pub mod Lifecycle
mod Tests
