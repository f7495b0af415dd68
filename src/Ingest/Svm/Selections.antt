-- ===== src/Ingest/Svm/Selections.antt =====
-- ingest/src/svm.rs: the field selections of a query.
pub mod Instruction
pub mod Transaction
pub mod Log
pub mod Balance
pub mod TokenBalance
pub mod Reward
pub mod Block
