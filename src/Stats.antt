-- ===== src/Stats.antt =====
-- src/stats.rs: the traffic counters that the relays and the tray share.
pub mod Sizes
use simple_forwarder.Prelude.{ℕ, Bool, false}
use simple_forwarder.Text.{Bytes}

pub record TrafficStats : Type 0 where
  pub listen_addr : Bytes
  pub upstream_rx : ℕ
  pub upstream_tx : ℕ
  pub direct_rx : ℕ
  pub direct_tx : ℕ
  -- in nanoseconds
  pub start_time : ℕ
  pub traffic_active : Bool

-- The first argument is the instant of the call.
unfoldable pub new_stats : ℕ → Bytes → TrafficStats
new_stats now listen_addr = record {
  listen_addr = listen_addr;
  upstream_rx = 0;
  upstream_tx = 0;
  direct_rx = 0;
  direct_tx = 0;
  start_time = now;
  traffic_active = false;
}
