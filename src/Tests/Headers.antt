-- ===== src/Tests/Headers.antt =====
-- The HTTP side at concrete inputs.
use simple_forwarder.Prelude.{◌≡◌, refl, List, [], ◌∷◌, ◌++◌, arith, keep, some, none, take, drop}
use simple_forwarder.Text.{Bytes, codes}
use simple_forwarder.Text.Utf8.{from_utf8_lossy}
use simple_forwarder.Util.{find_header_separator, separator_from, separator_width}
use simple_forwarder.Util.Separator.{
  FirstEnd, blank_line, find_header_separator-FirstEnd, find_header_separator_hint,
}
use simple_forwarder.Net.Stream.{Stream, unread}
use simple_forwarder.Client.HttpConnect.{http_connect, check_status, first_line, connect_text}
use simple_forwarder.Client.Answers.{http_connect_lem}
use simple_forwarder.Server.Headers.Defs.{
  iter_header_lines, filter_hop_by_hop_headers, connection_tokens,
}
use simple_forwarder.Server.Headers.Filter.{is_end_to_end, filter_hop_by_hop_headers_lines}
use simple_forwarder.Server.Http.Defs.{handle_http, http_limits, read_http_headers}
use simple_forwarder.Server.Http.Reads.{read_http_headers-CutShort}
use simple_forwarder.Net.HeaderLoop.Refused.{CutShort}
use simple_forwarder.Crates.{Crates}
use simple_forwarder.Server.Http.Parse.{parse_request}
use simple_forwarder.Server.Http.Serves.{served, handle_http_lem}
use simple_forwarder.Tests.Samples.{peer, plain_crates, open_network}

abbrev close_header : Bytes
close_header = codes "Connection: x-a\r\nX-A: 1\r\nHost: a\r\n\r\n"

filter_example :
    iter_header_lines (filter_hop_by_hop_headers close_header)
    ≡ keep
        (is_end_to_end (connection_tokens (iter_header_lines close_header)))
        (iter_header_lines close_header)
filter_example = filter_hop_by_hop_headers_lines close_header

separator_example :
    FirstEnd blank_line 0 (codes "a\r\n\r\nb") (find_header_separator (codes "a\r\n\r\nb") 0)
separator_example = find_header_separator-FirstEnd (codes "a\r\n\r\nb")

hint_example :
    find_header_separator (codes "a\r\n" ++ codes "\r\nb") 3
    ≡ find_header_separator (codes "a\r\n" ++ codes "\r\nb") 0
unfolding find_header_separator separator_from separator_width
hint_example = find_header_separator_hint (codes "a\r\n") (codes "\r\nb") refl

-- The client closes the connection before its headers end.
cut_example :
    CutShort http_limits
      (peer (codes "ET / HT" ∷ codes "TP/1.1\r\n" ∷ []))
      (read_http_headers b'G' (peer (codes "ET / HT" ∷ codes "TP/1.1\r\n" ∷ [])))
unfolding find_header_separator separator_from separator_width unread
cut_example =
    read_http_headers-CutShort b'G' (peer (codes "ET / HT" ∷ codes "TP/1.1\r\n" ∷ [])) (omega arith)
      refl

abbrev request : Stream
request =
    peer (codes "ET http://a/b?c HTTP/1.1\r" ∷ codes "\nConnection: x\r\nX: 1\r\n\r\nbody" ∷ [])

abbrev uri_crates : Crates
uri_crates = record plain_crates {
  parse_uri = λ s. some (record {
    host = some (codes "a");
    port_u16 = none;
    path = codes "/b";
    query = some (codes "c");
  });
}

handle_http_example :
    (left : Bytes) × (segs : List Bytes) × (handle_http b'G' uri_crates open_network [] request
      ≡ served uri_crates open_network [] left
          (parse_request uri_crates (take 50 (b'G' ∷ unread request.incoming)))
          (peer segs))
    × (left ++ unread segs ≡ drop 50 (b'G' ∷ unread request.incoming))
unfolding find_header_separator separator_from separator_width unread
handle_http_example = handle_http_lem b'G' uri_crates open_network [] request refl (omega arith)

abbrev answer : Bytes
answer = codes "HTTP/1.1 200 OK\r\n\r\n"

http_connect_example :
    (left : Bytes) × (segs : List Bytes) × (http_connect
        (codes "a")
        22
        (peer (codes "HTTP/1.1 200 OK\r\n\r\nSSH" ∷ codes "-2" ∷ []))
      ≡ check_status
          (first_line (from_utf8_lossy answer))
          left
          (record (peer []) { incoming = segs; sent = connect_text (codes "a") 22 }))
    × (left ++ unread segs ≡ codes "SSH-2")
unfolding find_header_separator separator_from separator_width unread
http_connect_example =
    http_connect_lem (codes "a") 22 answer (codes "SSH-2")
      (peer (codes "HTTP/1.1 200 OK\r\n\r\nSSH" ∷ codes "-2" ∷ [])) refl refl refl (omega arith)
