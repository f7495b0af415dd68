-- ===== src/Query.antt =====
-- The query engine of the `query` crate.
pub mod Hashing
pub mod Filter
pub mod Engine
pub mod Run
pub mod Request
pub mod Reference
mod Tests
