-- ===== src/Server/Socks5/Defs.antt =====
-- The method negotiation, the request and the reply of a SOCKS5 client.
use simple_forwarder.Prelude.{
  ℕ, ◌+◌, ◌*◌, true, false, not, ◌||◌, none, some, [], ◌∷◌, ◌++◌, ◌==◌, ltb, if◌then◌else◌, get_or,
}
use simple_forwarder.Text.{Bytes, codes, contains}
use simple_forwarder.Text.Decimal.{show_dec}
use simple_forwarder.Text.Utf8.{from_utf8_lossy}
use simple_forwarder.Net.Addr.{IpAddr, v4, v6, show_ip}
use simple_forwarder.Net.Error.{Error, message}
use simple_forwarder.Net.Stream.{M, ◌>>=◌, ◌>>◌, pure, fail, require, read_exact, write_all}
use simple_forwarder.Crates.{Crates}
use simple_forwarder.Outside.{Outside}
use simple_forwarder.Tracker.Defs.{socks5, socks5h}
use simple_forwarder.Server.Replies.{send_error_reply, send_success_reply}
use simple_forwarder.Server.Target.{Rules, Request, connect_to_target}
use simple_forwarder.Server.Handshake.{HandshakeResult, handshake_result}

abbrev pub selected_method : Bytes → ℕ
selected_method methods = if contains methods 0x00 then 0x00 else 0xFF

unfoldable pub negotiate : M (Unit {0})
negotiate = do
  second_byte ← read_exact 1
  let nmethods = get_or second_byte 0 0
  require (not (nmethods == 0 || ltb 255 nmethods))
      (message (codes "SOCKS5 nmethods must be between 1 and 255"))
  methods ← read_exact nmethods
  write_all (0x05 ∷ selected_method methods ∷ [])
  require (not (selected_method methods == 0xFF))
      (message (codes "No acceptable authentication method"))

-- `u16::from_be_bytes`
abbrev pub from_be16 : Bytes → ℕ
from_be16 b = get_or b 0 0 * 256 + get_or b 1 0

abbrev pub ip_request : IpAddr → Bytes → Request
ip_request a port_buf = record {
  host = show_ip a;
  port = from_be16 port_buf;
  resolve_hostname = false;
  ip = some a;
}

abbrev pub domain_request : Bytes → Bytes → Request
domain_request host_buf port_buf = record {
  host = from_utf8_lossy host_buf;
  port = from_be16 port_buf;
  resolve_hostname = true;
  ip = none;
}

-- An error reply, and the error.
abbrev pub reply_and_fail : ℕ → Error → M Request
reply_and_fail code e = send_error_reply code >> fail e

abbrev pub bad_domain_length : M Request
bad_domain_length =
    reply_and_fail 0x08 (message (codes "SOCKS5 domain name length must be between 1 and 253"))

unfoldable pub read_name : ℕ → M Request
read_name len = do
  host_buf ← read_exact len
  port_buf ← read_exact 2
  pure (domain_request host_buf port_buf)

unfoldable pub read_domain : M Request
unfolding read_name
read_domain = do
  len_buf ← read_exact 1
  let len = get_or len_buf 0 0
  if len == 0 || ltb 253 len then bad_domain_length else read_name len

unfoldable pub read_address : ℕ → M Request
unfolding read_domain
read_address atyp =
    if atyp == 0x01
    then (do addr ← read_exact 4; port_buf ← read_exact 2; pure (ip_request (v4 addr) port_buf))
    else if atyp == 0x03
    then read_domain
    else if atyp == 0x04
    then (do addr ← read_exact 16; port_buf ← read_exact 2; pure (ip_request (v6 addr) port_buf))
    else reply_and_fail 0x08 (message (codes "Unsupported SOCKS5 address type: " ++ show_dec atyp))

abbrev pub unsupported : ℕ → M Request
unsupported cmd =
    reply_and_fail 0x07 (message (codes "Unsupported SOCKS5 command: " ++ show_dec cmd))

unfoldable pub read_request : M Request
unfolding read_address
read_request = do
  header ← read_exact 4
  require (get_or header 0 0 == 0x05) (message (codes "Invalid SOCKS5 version in request"))
  let cmd = get_or header 1 0
  if cmd == 0x01 then read_address (get_or header 3 0) else unsupported cmd

-- Behind the request: the connection and the reply.
unfoldable pub serve : Crates → Outside → Rules → Request → M HandshakeResult
serve c o rules r = do
  target ← connect_to_target c o rules r true
  send_success_reply
  pure (handshake_result r (if r.resolve_hostname then socks5h else socks5) [] target)

unfoldable pub handle_socks5 : Crates → Outside → Rules → M HandshakeResult
unfolding negotiate read_request serve
handle_socks5 c o rules = do negotiate; r ← read_request; serve c o rules r
