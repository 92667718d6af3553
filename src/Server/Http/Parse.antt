-- ===== src/Server/Http/Parse.antt =====
-- The request line, the target that it names, and what is sent on.
use mathlib.Core.Option
use simple_forwarder.Prelude.{
  ℕ, suc, Bool, ◌||◌, Option, none, some, List, [], ◌∷◌, ◌++◌, ◌==◌, if◌then◌else◌, is_nil, take,
  drop, position, map, ◌-◌, within,
}
use simple_forwarder.Text.{Bytes, codes, eq_bytes, starts_with, strip_prefix}
use simple_forwarder.Text.Decimal.{parse_u16}
use simple_forwarder.Text.Utf8.{from_utf8_lossy}
use simple_forwarder.Text.Words.{trim, split_whitespace}
use simple_forwarder.Net.Error.{message}
use simple_forwarder.Crates.{Crates}
use simple_forwarder.Outcome.{Outcome, done, failed, ◌>>=◌}

-- The request line, split at white space: two words at least.
pub record RequestLine : Type 0 where
  pub method : Bytes
  pub uri : Bytes
  -- `parts[2]`, if there is one
  pub version : Option Bytes

unfoldable pub parse_words : Bytes → List Bytes → Outcome RequestLine
parse_words line (method ∷ uri ∷ []) = done (record { method = method; uri = uri; version = none })
parse_words line (method ∷ uri ∷ version ∷ rest) =
    done (record { method = method; uri = uri; version = some version })
parse_words line _ = failed (message (codes "Invalid HTTP request line: " ++ line))

unfoldable pub parse_request_line : Bytes → Outcome RequestLine
unfolding parse_words
parse_request_line request_line =
    let text = trim (from_utf8_lossy request_line) in parse_words text (split_whitespace text)

-- `to_uppercase() == "CONNECT"`: no character but an ASCII letter has one of these capitals.
abbrev ascii_upper : ℕ → ℕ
ascii_upper c = if within b'a' b'z' c then c - 32 else c

unfoldable pub is_connect_method : Bytes → Bool
is_connect_method method = eq_bytes (map ascii_upper method) (codes "CONNECT")

pub record Authority : Type 0 where
  pub host : Bytes
  pub port : ℕ

-- `p.parse().unwrap_or(default)`
abbrev pub port_or : ℕ → Bytes → ℕ
port_or default p = Option.get_or (parse_u16 p) default

-- The port behind the bracket of an IPv6 address: a colon and something more.
unfoldable pub bracket_port : Bytes → ℕ
bracket_port [] = 443
bracket_port (c ∷ []) = 443
bracket_port (c ∷ d ∷ s) = if c == b':' then port_or 443 (d ∷ s) else 443

-- `rsplit_once(':')`
unfoldable pub rsplit_colon : Bytes → Option (Bytes × Bytes)
rsplit_colon [] = none
rsplit_colon (c ∷ s) = elim (rsplit_colon s) [
  | some (h, p) ↦ some (c ∷ h, p)
  | none ↦ if c == b':' then some ([], s) else none
]

unfoldable pub bracketed_authority : Bytes → Outcome Authority
unfolding bracket_port
bracketed_authority uri = elim (position b']' uri) [
  | none ↦ failed (message (codes "Invalid IPv6 CONNECT URI: " ++ uri))
  | some end_bracket ↦ done (record {
    host = drop 1 (take end_bracket uri);
    port = bracket_port (drop (suc end_bracket) uri);
  })
]

unfoldable pub plain_authority : Bytes → Authority
unfolding rsplit_colon
plain_authority uri = elim (rsplit_colon uri) [
  | some (h, p) ↦ record { host = h; port = port_or 443 p }
  | none ↦ record { host = uri; port = 443 }
]

unfoldable pub connect_authority : Bytes → Outcome Authority
unfolding bracketed_authority plain_authority
connect_authority uri =
    if starts_with (codes "[") uri then bracketed_authority uri else done (plain_authority uri)

unfoldable pub uri_authority : Crates → Bytes → Outcome Authority
uri_authority c uri = elim (c.parse_uri uri) [
  | none ↦ failed (message (codes "Failed to parse URI: " ++ uri))
  | some u ↦ elim u.host [
    | none ↦ failed (message (codes "Missing host in HTTP URI"))
    | some host ↦ done (record { host = host; port = Option.get_or u.port_u16 80 })
  ]
]

unfoldable pub authority : Crates → RequestLine → Outcome Authority
unfolding connect_authority uri_authority
authority c l =
    if is_connect_method l.method then connect_authority l.uri else uri_authority c l.uri

abbrev pub or_slash : Bytes → Bytes
or_slash path = if is_nil path then codes "/" else path

-- The part of a text from the first "://" on, without it.
unfoldable pub after_scheme : Bytes → Option Bytes
after_scheme [] = none
after_scheme (c ∷ s) = elim (strip_prefix (codes "://") (c ∷ s)) [
  | some rest ↦ some rest
  | none ↦ after_scheme s
]

-- Without a parsed URI: the text from the first slash behind the scheme on.
unfoldable pub raw_origin : Bytes → Bytes
unfolding after_scheme
raw_origin uri =
    let rest = Option.get_or (after_scheme uri) uri in
    elim (position b'/' rest) [ none ↦ codes "/" | some i ↦ or_slash (drop i rest) ]

unfoldable pub origin_form : Crates → Bytes → Bytes
unfolding raw_origin
origin_form c uri = elim (c.parse_uri uri) [
  | none ↦ raw_origin uri
  | some u ↦ elim u.query [ some q ↦ or_slash u.path ++ b'?' ∷ q | none ↦ or_slash u.path ]
]

abbrev pub is_absolute : Bytes → Bool
is_absolute uri = starts_with (codes "http://") uri || starts_with (codes "https://") uri

unfoldable pub rewrite_line : Crates → RequestLine → Bytes → Bytes
unfolding origin_form
rewrite_line c l request_line =
    if is_absolute l.uri
    then l.method
      ++ b' '
        ∷ (origin_form c l.uri
            ++ b' ' ∷ (Option.get_or l.version (codes "HTTP/1.1") ++ codes "\r\n"))
    else request_line

-- The first line with its line feed, and the headers behind it.
unfoldable pub split_request : Bytes → Outcome (Bytes × Bytes)
split_request header_bytes = elim (position b'\n' header_bytes) [
  | none ↦ failed (message (codes "Invalid HTTP request headers"))
  | some i ↦ done (take (suc i) header_bytes, drop (suc i) header_bytes)
]

-- A request that has been read: its line, where it goes, its headers, and what follows them.
pub record HttpRequest : Type 0 where
  pub request_line : Bytes
  pub line : RequestLine
  pub target : Authority
  pub headers : Bytes

unfoldable pub parse_request : Crates → Bytes → Outcome HttpRequest
unfolding split_request parse_request_line authority
parse_request c header_bytes = do
  (request_line, headers) ← split_request header_bytes
  line ← parse_request_line request_line
  target ← authority c line
  done (record { request_line = request_line; line = line; target = target; headers = headers })
