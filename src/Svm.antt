-- ===== src/Svm.antt =====
-- svm-decode: dynamically typed Borsh data of Solana instructions and logs.
pub mod Types
pub mod Deserialize
pub mod ArrowConverter
pub mod Decode
