-- ===== src/Examples.antt =====
-- Concrete inputs, and the theorems of the development applied to them.
pub mod Instances
pub mod Samples
pub mod Witnesses
pub mod Stores
pub mod Operations
pub mod Cursors
pub mod Headers
pub mod Reads
pub mod Checkpoints
pub mod Supervised
