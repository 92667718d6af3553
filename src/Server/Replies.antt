-- ===== src/Server/Replies.antt =====
-- `send_socks4_reply`, `send_error_reply` and `send_success_reply`.
use simple_forwarder.Prelude.{ℕ, Option, none, some, ◌∷◌, ◌++◌, replicate}
use simple_forwarder.Text.{Bytes}
use simple_forwarder.Net.Addr.{SocketAddr, v4, v6}
use simple_forwarder.Net.Stream.{M, write_all}
use simple_forwarder.Client.Socks5.{be16}

-- Eight bytes, of which the second is the status.
abbrev pub socks4_reply : ℕ → Bytes
socks4_reply status = 0 ∷ status ∷ replicate 6 0

abbrev pub send_socks4_reply : ℕ → M (Unit {0})
send_socks4_reply status = write_all (socks4_reply status)

abbrev pub error_reply : ℕ → Bytes
error_reply error_code = 0x05 ∷ error_code ∷ 0x00 ∷ 0x01 ∷ replicate 6 0

abbrev pub send_error_reply : ℕ → M (Unit {0})
send_error_reply error_code = write_all (error_reply error_code)

abbrev pub bound_address : Option SocketAddr → Bytes
bound_address none = 0x01 ∷ replicate 6 0
bound_address (some a) = elim a.ip [
  | v4 o ↦ 0x01 ∷ o ++ be16 a.port
  | v6 o ↦ 0x04 ∷ o ++ be16 a.port
]

abbrev pub success_reply : Option SocketAddr → Bytes
success_reply a = 0x05 ∷ 0x00 ∷ 0x00 ∷ bound_address a

abbrev pub send_success_reply : M (Unit {0})
send_success_reply s = write_all (success_reply s.local_addr) s
