-- ===== src/Capacity.antt =====
-- crates/evm-state/src/capacity.rs: the sampled operating guards over disk usage.
pub mod Paths
pub mod Sorting
pub mod Roots
pub mod Limits
pub mod Mounts
pub mod Admission
pub mod Scan
pub mod Retried
pub mod Guard
pub mod Sampled
pub mod Supervise
