-- ===== src/Ingest/Evm/Selections.antt =====
-- ingest/src/evm.rs: the field selections of a query.
pub mod Block
pub mod Transaction
pub mod Log
pub mod Trace
