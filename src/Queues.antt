-- ===== src/Queues.antt =====
-- The job repositories of src/signalscope/domain, each over its own table.
pub mod Processing
pub mod Ingestion
pub mod Chunks
pub mod Batch
pub mod Claims
pub mod Entities
pub mod Events
pub mod Embeddings
pub mod Backlog
pub mod Accounting
pub mod Pages
pub mod Ended
pub mod SeenOnce
pub mod Covered
pub mod SeenAll
pub mod Batching
mod Tests
