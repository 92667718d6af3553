-- ===== src/Server/Http/Defs.antt =====
-- `read_http_headers` and `handle_http`.
use simple_forwarder.Prelude.{ℕ, true, false, none, [], ◌∷◌, if◌then◌else◌}
use simple_forwarder.Text.{Bytes, codes}
use simple_forwarder.Net.Error.{message}
use simple_forwarder.Net.Stream.{Res, ok, err, hang, M, bind, ◌>>=◌, ◌>>◌, pure, ignore, write_all}
use simple_forwarder.Net.HeaderLoop.Defs.{Limits, header_loop, enough}
use simple_forwarder.Crates.{Crates}
use simple_forwarder.Outside.{Outside}
use simple_forwarder.Client.Socks5.{or_fail}
use simple_forwarder.Tracker.Defs.{http}
use simple_forwarder.Server.Headers.Defs.{filter_hop_by_hop_headers}
use simple_forwarder.Server.Target.{Rules, Target, Request, connect_to_target}
use simple_forwarder.Server.Handshake.{HandshakeResult, handshake_result}
use simple_forwarder.Server.Http.Parse.{
  HttpRequest, Authority, parse_request, is_connect_method, rewrite_line,
}

abbrev pub http_limits : Limits
http_limits = record {
  max_len = 16384;
  too_long = message (codes "HTTP headers too long");
  closed_early = message (codes "Connection closed while reading HTTP headers");
}

unfoldable pub read_http_headers : ℕ → M (Bytes × Bytes)
read_http_headers first_byte s = header_loop http_limits (enough s) (first_byte ∷ []) 0 s

abbrev pub bad_gateway : Bytes
bad_gateway = codes "HTTP/1.1 502 Bad Gateway\r\nContent-Length: 0\r\nConnection: close\r\n\r\n"

-- A failure to connect is told to the client, whatever becomes of the reply.
unfoldable pub or_bad_gateway : Res Target → Res Target
or_bad_gateway (ok t s) = ok t s
or_bad_gateway (err e s) = bind (ignore (write_all bad_gateway s)) (λ u s'. err e s')
or_bad_gateway (hang s) = hang s

-- `target_stream.write_all`, from within the handler.
unfoldable pub write_target : Bytes → Target → M Target
write_target b t s = elim (write_all b t.stream) [
  | ok u stream ↦ ok (record t { stream = stream }) s
  | err e stream ↦ err e s
  | hang stream ↦ hang s
]

abbrev pub established : Bytes
established = codes "HTTP/1.1 200 Connection Established\r\n\r\n"

-- A tunnel is confirmed to the client; another request goes to the target, rewritten.
unfoldable pub forward : Crates → HttpRequest → Target → M Target
unfolding write_target
forward c r t =
    if is_connect_method r.line.method
    then write_all established >> pure t
    else (write_target (rewrite_line c r.line r.request_line) t
        >>= write_target (filter_hop_by_hop_headers r.headers))

abbrev pub request_of : Authority → Request
request_of a = record { host = a.host; port = a.port; resolve_hostname = true; ip = none }

unfoldable pub handle_http : ℕ → Crates → Outside → Rules → M HandshakeResult
unfolding read_http_headers or_bad_gateway forward
handle_http first_byte c o rules = do
  (header_bytes, leftover) ← read_http_headers first_byte
  r ← or_fail (parse_request c header_bytes)
  target ← λ s. or_bad_gateway (connect_to_target c o rules (request_of r.target) false s)
  target' ← forward c r target
  pure (handshake_result (request_of r.target) http leftover target')
