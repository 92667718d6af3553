-- ===== src/Server/Http/Tunnel.antt =====
-- The program's client (src/proxy_client.rs, http_connect) at its own HTTP handler
-- (src/proxy_server.rs, handle_http).
use simple_forwarder.Prelude.{
  ℕ, ◌<◌, ◌≤◌, ◌≡◌, refl, ap, ◌∙◌, Bool-cases, inl, inr, not, ◌&&◌, false, List, [], ◌∷◌, ◌++◌,
  arith, All, length, take, drop, take-length-append, drop-length-append,
}
use simple_forwarder.Text.{Bytes, codes, contains, starts_with}
use simple_forwarder.Text.Decimal.{show_dec, IsDigits, show_dec-IsDigits}
use simple_forwarder.Text.Words.Plain.{IsVisible, IsWord}
use simple_forwarder.Net.Stream.{Stream, ok, M, ◌>>=◌, ◌>>◌, write_all, pure, unread}
use simple_forwarder.Outcome.{done}
use simple_forwarder.Crates.{Crates}
use simple_forwarder.Outside.{Outside}
use simple_forwarder.Tracker.Defs.{http}
use simple_forwarder.Util.{find_header_separator}
use simple_forwarder.Client.HttpConnect.{format_host, connect_text}
use simple_forwarder.Server.Target.{Rules, connect_to_target}
use simple_forwarder.Server.Handshake.{HandshakeResult, handshake_result}
use simple_forwarder.Server.Http.Parse.{Authority, is_connect_method, parse_request}
use simple_forwarder.Server.Http.Defs.{
  read_http_headers, or_bad_gateway, established, request_of, handle_http,
}
use simple_forwarder.Server.Http.Reads.{read_http_headers_lem}
use simple_forwarder.Server.Http.Authority.{IsHost, connect_authority-format_host}
use simple_forwarder.Server.Http.ConnectText.{
  All-append, connect_request_to, parse_connect, separator_request,
}

digits-IsVisible : (s : Bytes) → IsDigits s → All IsVisible s
digits-IsVisible [] h = tt
digits-IsVisible (c ∷ s) h = ((omega (arith, h.0), omega (arith, h.1)), digits-IsVisible s h.2)

host-IsVisible : (host : Bytes) → All IsVisible host → All IsVisible (format_host host)
unfolding format_host
host-IsVisible host h =
    elim (Bool-cases (contains host b':' && not (starts_with (codes "[") host))) [
      | inl bracketed ↦
          rw bracketed (ground arith, All-append IsVisible host (b']' ∷ []) h (ground arith))
      | inr plain ↦ rw plain h
    ]

authority-IsVisible :
    (host : Bytes) (port : ℕ)
    → All IsVisible host
    → All IsVisible (format_host host ++ b':' ∷ show_dec port)
authority-IsVisible host port h =
    All-append IsVisible (format_host host) (b':' ∷ show_dec port) (host-IsVisible host h)
      (ground arith, digits-IsVisible _ (show_dec-IsDigits port))

with_colon-IsWord : (s t : Bytes) → All IsVisible (s ++ b':' ∷ t) → IsWord (s ++ b':' ∷ t)
with_colon-IsWord [] t h = h
with_colon-IsWord (c ∷ s) t h = h

-- What becomes of a CONNECT whose request has been read.
abbrev pub tunnel : Crates → Outside → Rules → Authority → Bytes → M HandshakeResult
tunnel c o rules a leftover = do
  target ← λ s. or_bad_gateway (connect_to_target c o rules (request_of a) false s)
  target' ← (write_all established >> pure target)
  pure (handshake_result (request_of a) http leftover target')

-- The handler, once the headers have been read and parsed as a CONNECT.
handle_http-tunnel :
    (c : Crates) (o : Outside) (rules : Rules) (s s' : Stream) (text left auth : Bytes)
    (a : Authority)
    → read_http_headers b'C' s ≡ ok (text, left) s'
    → parse_request c text ≡ done (connect_request_to auth a)
    → handle_http b'C' c o rules s ≡ tunnel c o rules a left s'
unfolding handle_http is_connect_method
handle_http-tunnel c o rules s s' text left auth a read parse = rw (read, parse) refl

-- The request that the program's client sends to open a tunnel to a host of visible ASCII characters
-- and a port, followed by further bytes, all in any segments: the program's HTTP handler connects to
-- that host and port by its rules, answers 200 when it is connected, and keeps for the target the
-- bytes that follow the request. The request, with the host, is of at most 16384 bytes.
pub handle_http-connect_text :
    (c : Crates) (o : Outside) (rules : Rules) (host : Bytes) (port : ℕ) (rest : Bytes) (s : Stream)
    → IsHost host
    → All IsVisible host
    → port < 65536
    → length (connect_text host port) ≤ 16384
    → b'C' ∷ unread s.incoming ≡ connect_text host port ++ rest
    → (left : Bytes) × (segs : List Bytes) × (handle_http b'C' c o rules s
        ≡ tunnel c o rules
            (record { host = host; port = port })
            left
            (record s { incoming = segs }))
      × (left ++ unread segs ≡ rest)
unfolding connect_text
handle_http-connect_text c o rules host port rest s h v small short sent =
    let (left, segs, reads, joined) =
      read_http_headers_lem b'C' s
        (ap (λ (t : Bytes). find_header_separator t 0) sent ∙ separator_request auth visible rest)
        short in
    let whole : ok (take n (b'C' ∷ unread s.incoming), left) (record s { incoming = segs })
        ≡ ok (connect_text host port, left) (record s { incoming = segs }) =
      ap (λ (t : Bytes). ok (t, left) (record s { incoming = segs }))
        (ap (take n) sent ∙ take-length-append (connect_text host port) rest) in
    (
      left,
      segs,
      handle_http-tunnel c o rules s (record s { incoming = segs }) (connect_text host port) left
          auth a (reads ∙ whole)
          (parse_connect auth visible (with_colon-IsWord (format_host host) (show_dec port) visible)
            c (connect_authority-format_host host port h small)),
      joined ∙ ap (drop n) sent ∙ drop-length-append (connect_text host port) rest,
    )
  where
    n : ℕ
    n = length (connect_text host port)

    a : Authority
    a = record { host = host; port = port }

    auth : Bytes
    auth = format_host host ++ b':' ∷ show_dec port

    visible : All IsVisible auth
    visible = authority-IsVisible host port v
