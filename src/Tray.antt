-- ===== src/Tray.antt =====
-- src/tray.rs: the texts of the status dialog, the activity of the icon, and the gates that keep one
-- dialog and one window open at a time.
pub mod Status
pub mod Menu
pub mod Autostart
pub mod Commas
pub mod Duration
pub mod ReadDuration
pub mod Activity
pub mod Gates
