-- ===== src/Client/HttpConnect.antt =====
-- `http_connect`: the CONNECT request to an HTTP proxy, and its answer.
use mathlib.Core.Option
use simple_forwarder.Prelude.{
  ℕ, not, ◌&&◌, ◌||◌, none, some, [], ◌∷◌, ◌++◌, ◌==◌, ltb, if◌then◌else◌, length, get_elem?,
  get_or,
}
use simple_forwarder.Text.{Bytes, codes, contains, starts_with, split, strip_cr}
use simple_forwarder.Text.Decimal.{show_dec, parse_u16}
use simple_forwarder.Text.Utf8.{from_utf8_lossy}
use simple_forwarder.Text.Words.{trim, split_whitespace}
use simple_forwarder.Net.Error.{message}
use simple_forwarder.Net.Stream.{M, ◌>>=◌, ◌>>◌, pure, fail, write_all}
use simple_forwarder.Net.HeaderLoop.Defs.{Limits, header_loop, enough}

abbrev pub connect_limits : Limits
connect_limits = record {
  max_len = 8192;
  too_long = message (codes "HTTP CONNECT response headers too long");
  closed_early = message (codes "Connection closed while reading CONNECT response");
}

-- An IPv6 address stands in brackets.
unfoldable pub format_host : Bytes → Bytes
format_host host =
    if contains host b':' && not (starts_with (codes "[") host)
    then b'[' ∷ host ++ b']' ∷ []
    else host

unfoldable pub connect_text : Bytes → ℕ → Bytes
unfolding format_host
connect_text host port =
    let authority = format_host host ++ b':' ∷ show_dec port in
    codes "CONNECT "
    ++ (authority ++ (codes " HTTP/1.1\r\nHost: " ++ (authority ++ codes "\r\n\r\n")))

unfoldable pub read_connect_response : M (Bytes × Bytes)
read_connect_response s = header_loop connect_limits (enough s) [] 0 s

-- `lines().next().unwrap_or("")`: the headers hold a line feed.
unfoldable pub first_line : Bytes → Bytes
first_line text = strip_cr (get_or (split b'\n' text) 0 [])

-- `split_whitespace().nth(1).and_then(|s| s.parse().ok()).unwrap_or(0)`
unfoldable pub status_code : Bytes → ℕ
status_code line = elim (get_elem? (split_whitespace line) 1) [
  | none ↦ 0
  | some word ↦ Option.get_or (parse_u16 word) 0
]

unfoldable pub check_status : Bytes → Bytes → M Bytes
unfolding status_code
check_status status_line target_leftover =
    if ltb (length status_line) 12 || not (starts_with (codes "HTTP/") status_line)
    then fail (message (codes "Invalid HTTP CONNECT response: " ++ trim status_line))
    else if status_code status_line == 200
    then pure target_leftover
    else fail (
        message (
          codes "HTTP CONNECT failed (status "
          ++ (show_dec (status_code status_line) ++ (codes "): " ++ trim status_line))))

unfoldable pub http_connect : Bytes → ℕ → M Bytes
unfolding connect_text read_connect_response first_line check_status
http_connect host port = do
  write_all (connect_text host port)
  (response, target_leftover) ← read_connect_response
  check_status (first_line (from_utf8_lossy response)) target_leftover
