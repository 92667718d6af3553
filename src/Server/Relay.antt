-- ===== src/Server/Relay.antt =====
-- `relay_data`: bytes copied both ways until both directions have ended.
pub mod Defs
pub mod Delivery
pub mod Steps
pub mod Runs
pub mod Accounts
pub mod Totals
pub mod Settled
pub mod Sums
