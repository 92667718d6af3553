-- ===== src/Crates.antt =====
-- What the program uses of the crates `wildmatch`, `ipnet` and `http`, whose code is not in the
-- repository: an argument of every definition that calls them.
use simple_forwarder.Prelude.{ℕ, Bool, Option}
use simple_forwarder.Text.{Bytes}
use simple_forwarder.Net.Addr.{IpAddr}

-- `ipnet::IpNet`
pub record IpNet : Type 0 where
  pub addr : IpAddr
  pub prefix_len : ℕ

-- `http::Uri`, by the parts that the program asks for
pub record Uri : Type 0 where
  pub host : Option Bytes
  pub port_u16 : Option ℕ
  pub path : Bytes
  pub query : Option Bytes

pub record Crates : Type 0 where
  -- `WildMatch::new(pattern).matches(text)`
  pub wild_matches : Bytes → Bytes → Bool
  -- `pattern.parse::<IpNet>().ok()`, `cidr.contains(&ip)`
  pub parse_net : Bytes → Option IpNet
  pub net_contains : IpNet → IpAddr → Bool
  -- `uri.parse::<http::Uri>().ok()`
  pub parse_uri : Bytes → Option Uri
