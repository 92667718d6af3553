-- ===== src/Server/Headers/Filter.antt =====
-- What the filter of the hop-by-hop headers keeps.
use simple_forwarder.Prelude.{
  ◌≡◌, ap, ◌∙◌, Bool, false, not, ◌&&◌, Option, none, some, List, [], ◌∷◌, ◌++◌, append_assoc,
  if◌then◌else◌, All, keep, Bool-cases, Option-cases, inl, inr,
}
use simple_forwarder.Text.{Bytes, codes}
use simple_forwarder.Server.Headers.Defs.{
  split_header_line, iter_header_lines, connection_tokens, is_fixed_hop, is_connection_token,
  filter_line, filter_lines, filter_hop_by_hop_headers,
}
use simple_forwarder.Server.Headers.Lines.{
  IsLine, iter_header_lines-line, iter_header_lines_end, iter_header_lines-All,
}

-- A line with a name that is neither hop-by-hop nor named by a `Connection` header.
abbrev pub has_end_to_end_name : List Bytes → Option (Bytes × Bytes) → Bool
has_end_to_end_name tokens none = false
has_end_to_end_name tokens (some (name, value)) =
    not (is_fixed_hop name) && not (is_connection_token tokens name)

abbrev pub is_end_to_end : List Bytes → Bytes → Bool
is_end_to_end tokens line = has_end_to_end_name tokens (split_header_line line)

filter_line_lem :
    (tokens : List Bytes) (line : Bytes)
    → filter_line tokens line ≡ (if is_end_to_end tokens line then line ++ codes "\r\n" else [])
unfolding filter_line
filter_line_lem tokens line = elim (Option-cases (split_header_line line)) [
  | inl e ↦ rw (e, filter_line)
  | inr (p, e) ↦ rw (e, filter_line)
]

filter_lines_lem :
    (tokens lines : List Bytes)
    → All IsLine lines
    → iter_header_lines (filter_lines tokens lines) ≡ keep (is_end_to_end tokens) lines
unfolding filter_lines
filter_lines_lem tokens [] a = iter_header_lines_end
filter_lines_lem tokens (line ∷ lines) a = elim (Bool-cases (is_end_to_end tokens line)) [
  | inl kept ↦
      rw
        (
          filter_line_lem tokens line,
          kept,
          append_assoc line (codes "\r\n") (filter_lines tokens lines),
        )
        (iter_header_lines-line line (filter_lines tokens lines) a.0
          ∙ ap (◌∷◌ line) (filter_lines_lem tokens lines a.1))
  | inr dropped ↦ rw (filter_line_lem tokens line, dropped) (filter_lines_lem tokens lines a.1)
]

-- The header lines of the output are those of the input, in order, whose name is neither one of
-- the hop-by-hop headers nor named by a `Connection` header of the input.
pub filter_hop_by_hop_headers_lines :
    (headers : Bytes)
    → iter_header_lines (filter_hop_by_hop_headers headers)
      ≡ keep
          (is_end_to_end (connection_tokens (iter_header_lines headers)))
          (iter_header_lines headers)
unfolding filter_hop_by_hop_headers
filter_hop_by_hop_headers_lines headers =
    filter_lines_lem (connection_tokens (iter_header_lines headers)) (iter_header_lines headers)
      (iter_header_lines-All headers)
