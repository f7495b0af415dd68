-- ===== src/Arrow.antt =====
-- Arrow data as the source uses it, and the interface of the arrow crate.
pub mod Types
pub mod Data
pub mod Kernels
pub mod Builders
pub mod Batches
pub mod Shapes
pub mod Reference
