-- ===== src/Tracker/Defs.antt =====
-- `ConnStatus`, `Protocol` and `ConnectionInfo`.
use simple_forwarder.Prelude.{ℕ, Option, ◌++◌}
use simple_forwarder.Text.{Bytes, codes}

pub data ConnStatus : Type 0 where
  connecting connected closed : ConnStatus
  error : Bytes → ConnStatus

unfoldable pub show_status : ConnStatus → Bytes
show_status connecting = codes "connecting"
show_status connected = codes "connected"
show_status closed = codes "closed"
show_status (error msg) = codes "error: " ++ msg

pub data Protocol : Type 0 where
  socks4 socks4a socks5 socks5h http direct : Protocol

unfoldable pub show_protocol : Protocol → Bytes
show_protocol socks4 = codes "SOCKS4"
show_protocol socks4a = codes "SOCKS4a"
show_protocol socks5 = codes "SOCKS5"
show_protocol socks5h = codes "SOCKS5h"
show_protocol http = codes "HTTP"
show_protocol direct = codes "Direct"

-- The two counters are shared with the relay; they stand in the state, under the connection's id.
pub record ConnectionInfo : Type 0 where
  pub id : ℕ
  pub source_ip : Bytes
  pub outbound_target : Bytes
  pub proxy_protocol : Bytes
  pub proxy : Bytes
  pub start_time : Bytes
  pub status : ConnStatus
  pub exe_name : Bytes
  -- in nanoseconds
  pub closed_at : Option ℕ
