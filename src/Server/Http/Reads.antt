-- ===== src/Server/Http/Reads.antt =====
-- The headers of a request: what `read_http_headers` returns, in terms of all the bytes of the
-- connection.
use simple_forwarder.Prelude.{ℕ, ◌≤◌, ◌<◌, ◌≡◌, refl, none, some, [], ◌∷◌, arith, length}
use simple_forwarder.Util.{find_header_separator}
use simple_forwarder.Net.Stream.{Stream, unread}
use simple_forwarder.Net.HeaderLoop.Found.{Splits, header_loop_found}
use simple_forwarder.Net.HeaderLoop.Refused.{
  TooLong, CutShort, header_loop-TooLong, header_loop-CutShort,
}
use simple_forwarder.Net.HeaderLoop.Defs.{enough}
use simple_forwarder.Server.Http.Defs.{http_limits, read_http_headers}

-- The separator that ends within 16384 bytes is found, in whatever segments the request arrives: the
-- bytes up to its end are the headers, and those read past them together with those still unread are
-- the rest.
pub read_http_headers_lem :
    (first_byte : ℕ) (s : Stream) {p : ℕ}
    → find_header_separator (first_byte ∷ unread s.incoming) 0 ≡ some p
    → p ≤ 16384
    → Splits s (first_byte ∷ unread s.incoming) p (read_http_headers first_byte s)
unfolding read_http_headers
read_http_headers_lem first_byte s e h =
    header_loop_found http_limits (enough s) (first_byte ∷ []) 0 s (omega arith) refl e h

-- A request of more than 16384 bytes in which no separator ends within that limit is refused as too
-- long.
pub read_http_headers-TooLong :
    (first_byte : ℕ) (s : Stream)
    → 16384 < length (first_byte ∷ unread s.incoming)
    → ((p : ℕ) → find_header_separator (first_byte ∷ unread s.incoming) 0 ≡ some p → 16384 < p)
    → TooLong http_limits s (read_http_headers first_byte s)
unfolding read_http_headers
read_http_headers-TooLong first_byte s long late =
    header_loop-TooLong http_limits (enough s) (first_byte ∷ []) 0 s (omega arith) refl long late

-- A request of at most 16384 bytes without a separator ends as the connection does: with the error
-- that it was closed, with the error of its reset, or waiting for bytes that never come.
pub read_http_headers-CutShort :
    (first_byte : ℕ) (s : Stream)
    → length (first_byte ∷ unread s.incoming) ≤ 16384
    → find_header_separator (first_byte ∷ unread s.incoming) 0 ≡ none
    → CutShort http_limits s (read_http_headers first_byte s)
unfolding read_http_headers
read_http_headers-CutShort first_byte s fits e =
    header_loop-CutShort http_limits (enough s) (first_byte ∷ []) 0 s (omega arith) refl fits e
