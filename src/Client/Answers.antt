-- ===== src/Client/Answers.antt =====
-- The handshakes with the upstream proxy, in terms of the bytes that it answers.
use simple_forwarder.Prelude.{
  ℕ, ◌≤◌, ◌≡◌, refl, ap, ◌∙◌, true, some, List, [], ◌++◌, arith, length, drop, take-length-append,
  drop-length-append,
}
use simple_forwarder.Text.{Bytes}
use simple_forwarder.Util.{find_header_separator}
use simple_forwarder.Text.Utf8.{from_utf8_lossy}
use simple_forwarder.Net.Stream.{Stream, unread}
use simple_forwarder.Net.Stream.Laws.{write_all_lem}
use simple_forwarder.Net.HeaderLoop.Defs.{enough}
use simple_forwarder.Net.HeaderLoop.Found.{Splits, header_loop_found}
use simple_forwarder.Client.HttpConnect.{
  connect_limits, connect_text, read_connect_response, first_line, check_status, http_connect,
}

read_connect_response_lem :
    (s : Stream) {p : ℕ}
    → find_header_separator (unread s.incoming) 0 ≡ some p
    → p ≤ 8192
    → Splits s (unread s.incoming) p (read_connect_response s)
unfolding read_connect_response
read_connect_response_lem s e h =
    header_loop_found connect_limits (enough s) [] 0 s (omega arith) refl e h

-- The CONNECT request is sent once; the status line of the answer, whose headers end within 8192
-- bytes, decides; and the bytes that the target has sent behind the headers are the leftover and
-- what is still unread, in whatever segments they arrive.
pub http_connect_lem :
    (host : Bytes) (port : ℕ) (answer rest : Bytes) (s : Stream)
    → s.writable ≡ true
    → unread s.incoming ≡ answer ++ rest
    → find_header_separator (answer ++ rest) 0 ≡ some (length answer)
    → length answer ≤ 8192
    → (left : Bytes) × (segs : List Bytes) × (http_connect host port s
        ≡ check_status
            (first_line (from_utf8_lossy answer))
            left
            (record s { incoming = segs; sent = s.sent ++ connect_text host port }))
      × (left ++ unread segs ≡ rest)
unfolding http_connect
http_connect_lem host port answer rest s open_ e f h =
    let s' : Stream = record s { sent = s.sent ++ connect_text host port } in
    let (left, segs, r, same) =
      read_connect_response_lem s' (ap (λ (u : Bytes). find_header_separator u 0) e ∙ f) h in
    (
      left,
      segs,
      rw (write_all_lem (connect_text host port) s open_)
          (rw (r, e, take-length-append answer rest) refl),
      same ∙ ap (λ (u : Bytes). drop (length answer) u) e ∙ drop-length-append answer rest,
    )
