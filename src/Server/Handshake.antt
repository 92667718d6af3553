-- ===== src/Server/Handshake.antt =====
-- `HandshakeResult`, without the client's stream: that is the state of the handler.
use simple_forwarder.Prelude.{ℕ, Bool}
use simple_forwarder.Text.{Bytes}
use simple_forwarder.Net.Stream.{Stream}
use simple_forwarder.Tracker.Defs.{Protocol}
use simple_forwarder.Server.Target.{Target, Request}

pub record HandshakeResult : Type 0 where
  pub target_stream : Stream
  pub host : Bytes
  pub port : ℕ
  pub proxy_desc : Bytes
  pub is_direct : Bool
  pub protocol : Protocol
  pub leftover : Bytes
  pub target_leftover : Bytes

abbrev pub handshake_result : Request → Protocol → Bytes → Target → HandshakeResult
handshake_result r protocol leftover t = record {
  target_stream = t.stream;
  host = r.host;
  port = r.port;
  proxy_desc = t.proxy_desc;
  is_direct = t.is_direct;
  protocol = protocol;
  leftover = leftover;
  target_leftover = t.leftover;
}
