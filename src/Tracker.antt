-- ===== src/Tracker.antt =====
-- src/connection_tracker.rs: the table of connections.
pub mod Defs
pub mod State
pub mod Equal
pub mod Ascending
pub mod Invariant
pub mod Retained
pub mod Distinct
pub mod Tables
pub mod Overlap
pub mod Snapshots
pub mod Operations
pub mod Register
pub mod Runs
