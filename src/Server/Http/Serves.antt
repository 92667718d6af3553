-- ===== src/Server/Http/Serves.antt =====
-- The whole of `handle_http`, on the bytes of the connection instead of its segments.
use simple_forwarder.Prelude.{
  ℕ, ◌≤◌, ◌≡◌, refl, ap, ◌∙◌, Bool, true, false, some, List, ◌∷◌, ◌++◌, append_assoc, if◌then◌else◌,
  take, drop, Bool-cases, inl, inr,
}
use simple_forwarder.Text.{Bytes}
use simple_forwarder.Util.{find_header_separator}
use simple_forwarder.Net.Error.{connection_reset}
use simple_forwarder.Net.Stream.{Stream, Res, ok, err, M, bind, write_all, pure, unread}
use simple_forwarder.Net.Stream.Laws.{write_all_lem}
use simple_forwarder.Outcome.{Outcome, done, failed}
use simple_forwarder.Crates.{Crates}
use simple_forwarder.Outside.{Outside}
use simple_forwarder.Client.Socks5.{or_fail}
use simple_forwarder.Tracker.Defs.{http}
use simple_forwarder.Server.Headers.Defs.{filter_hop_by_hop_headers}
use simple_forwarder.Server.Target.{Rules, Target, connect_to_target}
use simple_forwarder.Server.Handshake.{HandshakeResult, handshake_result}
use simple_forwarder.Server.Http.Parse.{HttpRequest, is_connect_method, parse_request, rewrite_line}
use simple_forwarder.Server.Http.Defs.{
  read_http_headers, or_bad_gateway, established, request_of, forward, handle_http, write_target,
}
use simple_forwarder.Server.Http.Reads.{read_http_headers_lem}

-- What a target is sent: the rewritten line and the headers that are left of the request's.
abbrev pub forwarded_text : Crates → HttpRequest → Bytes
forwarded_text c r = rewrite_line c r.line r.request_line ++ filter_hop_by_hop_headers r.headers

-- Bytes behind those that have been sent.
abbrev pub sends : Bytes → Stream → Stream
sends b s = record s { sent = s.sent ++ b }

-- The end of a request whose target is connected: a client is told of its tunnel, or a target is sent the
-- request, or the stream to be written to is closed.
abbrev pub answered : Crates → Bytes → HttpRequest → Target → M HandshakeResult
answered c leftover r t s =
    if is_connect_method r.line.method
    then (if s.writable
        then ok (handshake_result (request_of r.target) http leftover t) (sends established s)
        else err connection_reset s)
    else if t.stream.writable
    then ok
        (handshake_result (request_of r.target) http leftover
          (record t { stream = sends (forwarded_text c r) t.stream }))
        s
    else err connection_reset s

abbrev pub served : Crates → Outside → Rules → Bytes → Outcome HttpRequest → M HandshakeResult
served c o rules leftover (failed e) s = err e s
served c o rules leftover (done r) s =
    bind (or_bad_gateway (connect_to_target c o rules (request_of r.target) false s))
      (answered c leftover r)

write_all_shut :
    (b : Bytes) (s : Stream) → s.writable ≡ false → write_all b s ≡ err connection_reset s
unfolding write_all
write_all_shut b s e = ap (λ (x : Bool). if x then ok tt (sends b s) else err connection_reset s) e

write_target_ok :
    (b : Bytes) (t : Target) (s : Stream)
    → t.stream.writable ≡ true
    → write_target b t s ≡ ok (record t { stream = sends b t.stream }) s
unfolding write_target
write_target_ok b t s e = rw (write_all_lem b t.stream e, write_target) refl

write_target_shut :
    (b : Bytes) (t : Target) (s : Stream)
    → t.stream.writable ≡ false
    → write_target b t s ≡ err connection_reset s
unfolding write_target
write_target_shut b t s e = rw (write_all_shut b t.stream e, write_target) refl

module _ (c : Crates) (leftover : Bytes) (r : HttpRequest) where
  abbrev result : Target → M HandshakeResult
  result t = pure (handshake_result (request_of r.target) http leftover t)

  told :
      (t : Target) (s : Stream) (b : Bool)
      → s.writable ≡ b
      → bind (bind (write_all established s) (λ u. pure t)) result
        ≡ (if b then result t (sends established s) else err connection_reset s)
  told t s true e =
      ap (λ (x : Res (Unit {0})). bind (bind x (λ u. pure t)) result)
        (write_all_lem established s e)
  told t s false e =
      ap (λ (x : Res (Unit {0})). bind (bind x (λ u. pure t)) result)
        (write_all_shut established s e)

  sent_on :
      (l h : Bytes) (t : Target) (s : Stream) (b : Bool)
      → t.stream.writable ≡ b
      → bind (bind (write_target l t s) (write_target h)) result ≡ (
          if b
          then result (record t { stream = sends (l ++ h) t.stream }) s
          else err connection_reset s)
  sent_on l h t s true e =
      ap (λ (x : Res Target). bind (bind x (write_target h)) result) (write_target_ok l t s e)
      ∙ ap (λ (x : Res Target). bind x result)
          (write_target_ok h (record t { stream = sends l t.stream }) s e)
      ∙ ap (λ (x : Bytes). result (record t { stream = record t.stream { sent = x } }) s)
          (append_assoc t.stream.sent l h)
  sent_on l h t s false e =
      ap (λ (x : Res Target). bind (bind x (write_target h)) result) (write_target_shut l t s e)

  forward-answered :
      (t : Target) (s : Stream) → bind (forward c r t s) result ≡ answered c leftover r t s
  unfolding forward
  forward-answered t s = elim (Bool-cases (is_connect_method r.line.method)) [
    | inl connect ↦ rw (connect, forward) (told t s s.writable refl)
    | inr other ↦
        rw (other, forward)
          (sent_on (rewrite_line c r.line r.request_line) (filter_hop_by_hop_headers r.headers) t s
            t.stream.writable refl)
  ]

-- The handler, once the headers have been read.
module _ (c : Crates) (o : Outside) (rules : Rules) (left : Bytes) where
  abbrev after_parse : HttpRequest → M HandshakeResult
  after_parse r s =
      bind (or_bad_gateway (connect_to_target c o rules (request_of r.target) false s))
        (λ t s'. bind (forward c r t s') (result c left r))

  after_parse-served :
      (x : Outcome HttpRequest) (s : Stream)
      → bind (or_fail x s) after_parse ≡ served c o rules left x s
  after_parse-served (failed e) s = refl
  after_parse-served (done r) s =
      ap (bind (or_bad_gateway (connect_to_target c o rules (request_of r.target) false s)))
        (λ i t s'. forward-answered c left r t s' i)

  handle_http-served :
      (first_byte : ℕ) (s s' : Stream) (text : Bytes)
      → read_http_headers first_byte s ≡ ok (text, left) s'
      → handle_http first_byte c o rules s ≡ served c o rules left (parse_request c text) s'
  unfolding handle_http
  handle_http-served first_byte s s' text read =
      rw read (after_parse-served (parse_request c text) s')

-- A request that ends within 16384 bytes, in whatever segments it arrives, is parsed from the bytes up to
-- its end, and a refusal is the result. Otherwise the target of the request is connected by the rules, or
-- 502 is answered. Then a CONNECT is answered 200 and the target is sent nothing; the target of any other
-- request is sent its rewritten line and its filtered headers and the client nothing. The bytes behind
-- the request are left for the target. A stream that cannot be written to is an error.
pub handle_http_lem :
    (first_byte : ℕ) (c : Crates) (o : Outside) (rules : Rules) (s : Stream) {p : ℕ}
    → find_header_separator (first_byte ∷ unread s.incoming) 0 ≡ some p
    → p ≤ 16384
    → (left : Bytes) × (segs : List Bytes) × (handle_http first_byte c o rules s
        ≡ served c o rules left
            (parse_request c (take p (first_byte ∷ unread s.incoming)))
            (record s { incoming = segs }))
      × (left ++ unread segs ≡ drop p (first_byte ∷ unread s.incoming))
handle_http_lem first_byte c o rules s e h =
    let (left, segs, reads, joined) = read_http_headers_lem first_byte s e h in
    (left, segs, handle_http-served c o rules left first_byte s _ _ reads, joined)
