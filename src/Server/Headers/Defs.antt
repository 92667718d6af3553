-- ===== src/Server/Headers/Defs.antt =====
-- `trim_ascii_bytes`, `split_header_line`, `iter_header_lines`, `filter_hop_by_hop_headers`.
use simple_forwarder.Prelude.{
  suc, Bool, true, false, not, ◌&&◌, Option, none, some, List, [], ◌∷◌, ◌++◌, if◌then◌else◌, is_nil,
  any, take, drop, position,
}
use simple_forwarder.Text.{
  Bytes, codes, split, strip_cr, eq_bytes, to_ascii_lowercase, eq_ignore_ascii_case,
  is_ascii_whitespace,
}

unfoldable pub trim_ascii_start : Bytes → Bytes
trim_ascii_start [] = []
trim_ascii_start (c ∷ s) = elim (is_ascii_whitespace c) [
  | true ↦ trim_ascii_start s
  | false ↦ c ∷ s
]

-- White space is dropped if nothing but white space follows it.
unfoldable pub trim_ascii_end : Bytes → Bytes
trim_ascii_end [] = []
trim_ascii_end (c ∷ s) =
    let rest = trim_ascii_end s in if is_nil rest && is_ascii_whitespace c then [] else c ∷ rest

unfoldable pub trim_ascii_bytes : Bytes → Bytes
unfolding trim_ascii_start trim_ascii_end
trim_ascii_bytes s = trim_ascii_end (trim_ascii_start s)

-- The name and the value around the first colon; `none` without a colon or a name.
unfoldable pub split_header_line : Bytes → Option (Bytes × Bytes)
unfolding trim_ascii_bytes
split_header_line line = elim (position b':' line) [
  | none ↦ none
  | some colon ↦
      let name = trim_ascii_bytes (take colon line) in
      if is_nil name then none else some (name, trim_ascii_bytes (drop (suc colon) line))
]

unfoldable pub nonempty_lines : List Bytes → List Bytes
nonempty_lines [] = []
nonempty_lines (line ∷ lines) =
    let rest = nonempty_lines lines in if is_nil (strip_cr line) then rest else strip_cr line ∷ rest

unfoldable pub iter_header_lines : Bytes → List Bytes
unfolding nonempty_lines
iter_header_lines headers = nonempty_lines (split b'\n' headers)

abbrev pub hop_by_hop : List Bytes
hop_by_hop =
    codes "connection"
    ∷ codes "keep-alive"
    ∷ codes "proxy-authenticate"
    ∷ codes "proxy-authorization"
    ∷ codes "proxy-connection"
    ∷ codes "te"
    ∷ codes "trailers"
    ∷ codes "transfer-encoding"
    ∷ codes "upgrade"
    ∷ []

-- The tokens of a `Connection` value, in lower case.
unfoldable pub value_tokens : List Bytes → List Bytes
unfolding trim_ascii_bytes
value_tokens [] = []
value_tokens (piece ∷ pieces) =
    let token = trim_ascii_bytes piece in
    let rest = value_tokens pieces in if is_nil token then rest else to_ascii_lowercase token ∷ rest

unfoldable pub line_tokens : Bytes → List Bytes
unfolding split_header_line value_tokens
line_tokens line = elim (split_header_line line) [
  | none ↦ []
  | some (name, value) ↦
      if eq_ignore_ascii_case name (codes "connection") then value_tokens (split b',' value) else []
]

-- The first pass: the headers that `Connection` names. The set is the list of what was inserted.
unfoldable pub connection_tokens : List Bytes → List Bytes
unfolding line_tokens
connection_tokens [] = []
connection_tokens (line ∷ lines) = line_tokens line ++ connection_tokens lines

abbrev pub is_fixed_hop : Bytes → Bool
is_fixed_hop name = any (λ hop_name. eq_ignore_ascii_case name hop_name) hop_by_hop

abbrev pub is_connection_token : List Bytes → Bytes → Bool
is_connection_token tokens name = any (λ token. eq_bytes token (to_ascii_lowercase name)) tokens

-- What the second pass writes for one line.
unfoldable pub filter_line : List Bytes → Bytes → Bytes
unfolding split_header_line
filter_line tokens line = elim (split_header_line line) [
  | none ↦ []
  | some (name, value) ↦
      if not (is_fixed_hop name) && not (is_connection_token tokens name)
      then line ++ codes "\r\n"
      else []
]

unfoldable pub filter_lines : List Bytes → List Bytes → Bytes
unfolding filter_line
filter_lines tokens [] = codes "\r\n"
filter_lines tokens (line ∷ lines) = filter_line tokens line ++ filter_lines tokens lines

unfoldable pub filter_hop_by_hop_headers : Bytes → Bytes
unfolding iter_header_lines connection_tokens filter_lines
filter_hop_by_hop_headers headers =
    let lines = iter_header_lines headers in filter_lines (connection_tokens lines) lines
