-- ===== src/Client/Socks5.antt =====
-- `get_socks5_error` and `socks5_connect`: the SOCKS5 handshake with the upstream proxy.
use simple_forwarder.Prelude.{
  ℕ, ◌+◌, ◌/◌, ◌%◌, Bool, none, some, [], ◌∷◌, ◌++◌, ◌==◌, ltb, if◌then◌else◌, length, get_or,
}
use simple_forwarder.Text.{Bytes, codes}
use simple_forwarder.Text.Decimal.{show_dec}
use simple_forwarder.Net.Addr.{v4, v6, parse_ip}
use simple_forwarder.Net.Error.{Error, message}
use simple_forwarder.Net.Stream.{M, ◌>>=◌, ◌>>◌, pure, fail, require, read_exact, write_all}
use simple_forwarder.Outcome.{Outcome, done, failed}

unfoldable pub get_socks5_error : ℕ → Bytes
get_socks5_error code =
    if code == 0
    then codes "succeeded"
    else if code == 1
    then codes "general SOCKS server failure"
    else if code == 2
    then codes "connection not allowed by ruleset"
    else if code == 3
    then codes "Network unreachable"
    else if code == 4
    then codes "Host unreachable"
    else if code == 5
    then codes "Connection refused"
    else if code == 6
    then codes "TTL expired"
    else if code == 7
    then codes "Command not supported"
    else if code == 8
    then codes "Address type not supported"
    else codes "unknown error"

-- `put_u16`: the two bytes of a port, the high one first.
abbrev pub be16 : ℕ → Bytes
be16 port = (port / 256 % 256) ∷ (port % 256) ∷ []

needs_ip : Bytes → Error
needs_ip host = message (
    codes "Hostname "
    ++ (host
        ++ codes
            " found but upstream proxy requires an IP address (standard SOCKS5) and local resolution failed or was disabled"))

-- The address type and address of the request.
unfoldable pub request_address : Bytes → Bool → Outcome Bytes
unfolding needs_ip
request_address host is_socks5h = elim (parse_ip host) [
  | some (v4 o) ↦ done (0x01 ∷ o)
  | some (v6 o) ↦ done (0x04 ∷ o)
  | none ↦
      if is_socks5h
      then (if ltb 255 (length host)
          then failed (message (codes "Hostname too long"))
          else done (0x03 ∷ length host ∷ host))
      else failed (needs_ip host)
]

unfoldable pub connect_request : Bytes → ℕ → Bool → Outcome Bytes
unfolding request_address
connect_request host port is_socks5h = elim (request_address host is_socks5h) [
  | failed e ↦ failed e
  | done address ↦ done (0x05 ∷ 0x01 ∷ 0x00 ∷ address ++ be16 port)
]

abbrev pub or_fail {ℓ} : {A : Type ℓ} → Outcome A → M A
or_fail (done a) = pure a
or_fail (failed e) = fail e

-- The address and port that end the reply.
unfoldable pub skip_bound_address : ℕ → M (Unit {0})
skip_bound_address atyp =
    if atyp == 0x01
    then (read_exact 6 >> pure tt)
    else if atyp == 0x03
    then (read_exact 1 >>= λ len. read_exact (get_or len 0 0 + 2) >> pure tt)
    else if atyp == 0x04
    then (read_exact 18 >> pure tt)
    else fail (message (codes "Invalid ATYP in SOCKS5 response: " ++ show_dec atyp))

unfoldable pub negotiate : M (Unit {0})
negotiate = do
  write_all (0x05 ∷ 0x01 ∷ 0x00 ∷ [])
  response ← read_exact 2
  require (get_or response 0 0 == 0x05)
      (message (codes "Invalid SOCKS5 version: " ++ show_dec (get_or response 0 0)))
  require (get_or response 1 0 == 0x00)
      (message (codes "SOCKS5 authentication failed, only 'NO AUTHENTICATION' is supported"))

unfoldable pub read_connect_reply : M (Unit {0})
unfolding skip_bound_address get_socks5_error
read_connect_reply = do
  header ← read_exact 4
  require (get_or header 0 0 == 0x05) (message (codes "Invalid SOCKS5 version in connect response"))
  require (get_or header 1 0 == 0x00) (
      message (
        codes "SOCKS5 connect failed with code: "
        ++ (show_dec (get_or header 1 0)
            ++ (codes " (" ++ (get_socks5_error (get_or header 1 0) ++ codes ")")))))
  skip_bound_address (get_or header 3 0)

unfoldable pub socks5_connect : Bytes → ℕ → Bool → M (Unit {0})
unfolding negotiate connect_request read_connect_reply
socks5_connect host port is_socks5h = do
  negotiate
  request ← or_fail (connect_request host port is_socks5h)
  write_all request
  read_connect_reply
