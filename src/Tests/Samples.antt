-- ===== src/Tests/Samples.antt =====
-- Sample streams, crates and networks.
use simple_forwarder.Prelude.{true, false, none, some, List, [], ◌∷◌}
use simple_forwarder.Text.{Bytes, codes, eq_bytes}
use simple_forwarder.Net.Addr.{SocketAddr, v4}
use simple_forwarder.Net.Error.{connection_refused}
use simple_forwarder.Net.Stream.{Stream, closed}
use simple_forwarder.Crates.{Crates}
use simple_forwarder.Outside.{Outside, connected, dial_error}
use simple_forwarder.Matcher.{RuleMatcher, new}
use simple_forwarder.Client.Url.{ProxyConfig, http}
use simple_forwarder.Stats.{TrafficStats, new_stats}
use simple_forwarder.Tracker.State as Trackers
use simple_forwarder.Tracker.State.{Tracker, register}
use simple_forwarder.Server.Target.{Request}

abbrev pub local : SocketAddr
local = record { ip = v4 (127 ∷ 0 ∷ 0 ∷ 1 ∷ []); port = 1080 }

-- A stream with these segments to come, from a peer that closes behind them.
abbrev pub peer : List Bytes → Stream
peer segs = record {
  incoming = segs;
  ending = closed;
  sent = [];
  writable = true;
  local_addr = some local;
}

-- Exact texts only, no networks, no parsed URIs.
abbrev pub plain_crates : Crates
plain_crates = record {
  wild_matches = eq_bytes;
  parse_net = λ s. none;
  net_contains = λ n a. false;
  parse_uri = λ s. none;
}

-- Every dial reaches a peer that sends nothing.
abbrev pub open_network : Outside
open_network = record {
  dial_addr = λ a. connected (peer []);
  dial = λ h p. connected (peer []);
  lookup_host = λ h. none;
}

abbrev pub closed_network : Outside
closed_network = record {
  dial_addr = λ a. dial_error connection_refused;
  dial = λ h p. dial_error connection_refused;
  lookup_host = λ h. none;
}

abbrev pub to_host : Bytes → Request
to_host host = record { host = host; port = 443; resolve_hostname = true; ip = none }

-- A rule for one host, and the rules with it behind another.
abbrev pub rule_for : Bytes → RuleMatcher
rule_for host = new plain_crates (host ∷ [])

abbrev pub upstream : ProxyConfig
upstream = record { proxy_type = http; addr = codes "10.0.0.1:8080" }

abbrev pub fresh_stats : TrafficStats
fresh_stats = new_stats 0 (codes "127.0.0.1:1080")

-- A tracker with one connection.
abbrev pub one_client : Tracker
one_client = (register (codes "a") (codes "b") (codes "c") (codes "d") Trackers.new).1
