-- ===== src/Net/Addr.antt =====
-- `IpAddr`, `SocketAddr` and their text, as Rust's standard library reads and writes it.
use simple_forwarder.Prelude.{ℕ, Bool, false, Option, none, some, ◌∷◌, ◌++◌}
use simple_forwarder.Text.{Bytes, eq_bytes}
use simple_forwarder.Text.Decimal.{show_dec}
use simple_forwarder.Net.Ipv6.{show_ipv6, parse_ipv6}
use simple_forwarder.Net.Ipv4.{show_ipv4, parse_ipv4}

-- An address by its octets: four of them, or sixteen.
pub data IpAddr : Type 0 where
  v4 : Bytes → IpAddr
  v6 : Bytes → IpAddr

abbrev pub octets : IpAddr → Bytes
octets (v4 o) = o
octets (v6 o) = o

abbrev pub eq_ip : IpAddr → IpAddr → Bool
eq_ip (v4 a) (v4 b) = eq_bytes a b
eq_ip (v6 a) (v6 b) = eq_bytes a b
eq_ip _ _ = false

pub record SocketAddr : Type 0 where
  pub ip : IpAddr
  pub port : ℕ

unfoldable pub show_ip : IpAddr → Bytes
unfolding show_ipv4 show_ipv6
show_ip (v4 o) = show_ipv4 o
show_ip (v6 o) = show_ipv6 o

-- `str::parse::<IpAddr>`
unfoldable pub parse_ip : Bytes → Option IpAddr
unfolding parse_ipv4 parse_ipv6
parse_ip s = elim (parse_ipv4 s) [
  | some o ↦ some (v4 o)
  | none ↦ elim (parse_ipv6 s) [ some o ↦ some (v6 o) | none ↦ none ]
]

unfoldable pub show_socket_addr : SocketAddr → Bytes
unfolding show_ip show_dec
show_socket_addr a = elim a.ip [
  | v4 o ↦ show_ip (v4 o) ++ b':' ∷ show_dec a.port
  | v6 o ↦ b'[' ∷ show_ip (v6 o) ++ (b']' ∷ b':' ∷ show_dec a.port)
]
