-- ===== src/Outside.antt =====
-- The network outside the program: an argument of what dials or resolves names.
use simple_forwarder.Prelude.{ℕ, Option, List}
use simple_forwarder.Text.{Bytes}
use simple_forwarder.Net.Addr.{SocketAddr}
use simple_forwarder.Net.Error.{Error}
use simple_forwarder.Net.Stream.{Stream}

-- `timeout(CONNECT_TIMEOUT, TcpStream::connect(…))`
pub data Dial : Type 0 where
  connected : Stream → Dial
  dial_error : Error → Dial
  dial_timeout : Dial

pub record Outside : Type 0 where
  -- to an address such as "192.0.2.1:8080", to a host and a port
  pub dial_addr : Bytes → Dial
  pub dial : Bytes → ℕ → Dial
  -- `lookup_host(…)` within its timeout; `none` for an error or a timeout
  pub lookup_host : Bytes → Option (List SocketAddr)
