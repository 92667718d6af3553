-- ===== src/Tests.antt =====
-- Runs of the definitions, and the theorems at concrete inputs.
mod Samples
mod Startup
mod Inbound
mod Targets
mod Socks
mod Headers
mod Tables
mod Tray
mod Reloads
mod Interop
mod Rows
mod Lookups
