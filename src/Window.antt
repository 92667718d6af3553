-- ===== src/Window.antt =====
-- src/traffic_window.rs: the rows of the traffic window.
pub mod Defs
pub mod Highlights
pub mod Cells
pub mod Tick
pub mod Rows
pub mod Diff
pub mod Steady
pub mod Shows
pub mod Ticks
pub mod Stale
pub mod Top
