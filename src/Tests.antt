-- ===== src/Tests.antt =====
-- The models run on small inputs, and the theorems applied to them.
pub mod Filters
pub mod Queries
pub mod Servers
pub mod Lines
pub mod Wire
pub mod Writers
pub mod Aggregates
pub mod Scans
