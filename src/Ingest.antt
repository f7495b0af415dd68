-- ===== src/Ingest.antt =====
-- ingest/src: queries, their conversion to generic ones, and the stream around the providers.
pub mod Serde
pub mod Evm
pub mod Svm
mod Tests
pub mod Common
pub mod Known
pub mod Fetched
pub mod LastBlock
