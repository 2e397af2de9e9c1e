-- ===== src/Documents.antt =====
-- Documents (domain/documents): how a text is split into chunks.
pub mod Scan
pub mod Chunking
pub mod Steps
pub mod Chunks
pub mod Sections
pub mod Offsets
mod Tests
