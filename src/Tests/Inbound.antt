-- ===== src/Tests/Inbound.antt =====
-- The inbound protocols on concrete streams.
use simple_forwarder.Prelude.{ℕ, ◌≡◌, refl, Option, none, some, [], ◌∷◌, ◌++◌}
use simple_forwarder.Text.{Bytes, codes}
use simple_forwarder.Text.Decimal.{parse_unsigned}
use simple_forwarder.Text.Words.{trim, split_whitespace}
use simple_forwarder.Text.Utf8.{from_utf8_lossy}
use simple_forwarder.Util.{separator_width, separator_from, find_header_separator}
use simple_forwarder.Net.Stream.{Res, ok, err, hang, read, read_exact, write_all, unread}
use simple_forwarder.Net.HeaderLoop.Defs.{header_loop}
use simple_forwarder.Server.Headers.Defs.{filter_hop_by_hop_headers}
use simple_forwarder.Server.Handshake.{HandshakeResult}
use simple_forwarder.Server.Target.{connect_to_target}
use simple_forwarder.Server.Socks5.Defs.{handle_socks5}
use simple_forwarder.Server.Socks4.Defs.{handle_socks4, field_loop, scan}
use simple_forwarder.Server.Http.Defs.{handle_http}
use simple_forwarder.Server.Http.Parse.{is_connect_method, parse_request}
use simple_forwarder.Tests.Samples.{peer, plain_crates, open_network}

named_by_connection :
    filter_hop_by_hop_headers (
      codes
        "Host: example.com\r\nConnection: keep-alive, X-Foo, x-bar\r\nX-Foo: secret\r\nX-Bar: secret2\r\nContent-Length: 0\r\n\r\n")
    ≡ codes "Host: example.com\r\nContent-Length: 0\r\n\r\n"
unfolding filter_hop_by_hop_headers
named_by_connection = refl

abbrev host_port : Res HandshakeResult → Option (Bytes × ℕ × Bytes × Bytes)
host_port (ok r s) = some (r.host, r.port, r.leftover ++ unread s.incoming, s.sent)
host_port (err e s) = none
host_port (hang s) = none

socks4a :
    host_port (
      handle_socks4 plain_crates open_network [] (
        peer (
          (1 ∷ 1 ∷ 187 ∷ 0 ∷ 0 ∷ [])
          ∷ (0 ∷ 1 ∷ codes "me" ++ (0 ∷ codes "a.b"))
          ∷ (0 ∷ codes "hi")
          ∷ codes "!"
          ∷ [])))
    ≡ some (codes "a.b", 443, codes "hi!", 0 ∷ 0x5A ∷ 0 ∷ 0 ∷ 0 ∷ 0 ∷ 0 ∷ 0 ∷ [])
unfolding handle_socks4 connect_to_target field_loop scan read read_exact write_all from_utf8_lossy
    unread
socks4a = refl

socks5_run :
    host_port (
      handle_socks5 plain_crates open_network []
        (peer ((1 ∷ 0 ∷ 5 ∷ 1 ∷ 0 ∷ []) ∷ (3 ∷ 3 ∷ codes "a.b") ∷ (0 ∷ 80 ∷ []) ∷ [])))
    ≡ some (codes "a.b", 80, [], 5 ∷ 0 ∷ 5 ∷ 0 ∷ 0 ∷ 1 ∷ 127 ∷ 0 ∷ 0 ∷ 1 ∷ 4 ∷ 56 ∷ [])
unfolding handle_socks5 connect_to_target read_exact write_all from_utf8_lossy unread
socks5_run = refl

http_run :
    host_port (
      handle_http b'C' plain_crates open_network []
        (peer (codes "ONNECT [::1]:80 HTTP/1.1\r\nHost: x\r" ∷ codes "\n\r\nrest" ∷ [])))
    ≡ some (codes "::1", 80, codes "rest", codes "HTTP/1.1 200 Connection Established\r\n\r\n")
unfolding handle_http connect_to_target header_loop find_header_separator separator_from
    separator_width read read_exact write_all from_utf8_lossy unread is_connect_method parse_request
    split_whitespace trim parse_unsigned
http_run = refl
