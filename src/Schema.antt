-- ===== src/Schema.antt =====
-- evm-schema/src and svm-schema/src: the tables' schemas and the builders of their record batches.
pub mod Rows
pub mod Shapes
pub mod Evm
pub mod Svm
