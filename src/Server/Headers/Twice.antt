-- ===== src/Server/Headers/Twice.antt =====
-- The filter of the hop-by-hop headers applied to its own output.
use simple_forwarder.Prelude.{
  ◌≡◌, refl, sym, ap, ◌∙◌, Bool, true, false, not, ◌&&◌, List, [], ◌∷◌, drop, if◌then◌else◌, keep,
  any, Bool-cases, Option-cases, inl, inr,
}
use simple_forwarder.Text.{Bytes, codes, eq_ignore_ascii_case}
use simple_forwarder.Server.Headers.Defs.{
  split_header_line, iter_header_lines, line_tokens, connection_tokens, is_fixed_hop,
  is_connection_token, hop_by_hop, filter_hop_by_hop_headers,
}
use simple_forwarder.Server.Headers.Filter.{
  has_end_to_end_name, is_end_to_end, filter_hop_by_hop_headers_lines,
}

any_head : (p : Bytes → Bool) (x : Bytes) (xs : List Bytes) → any p (x ∷ xs) ≡ false → p x ≡ false
any_head p x xs h = go (p x) h
  where
    go : (b : Bool) → (if b then true else any p xs) ≡ false → b ≡ false
    go true e = e
    go false e = refl

fixed_connection :
    (name : Bytes)
    → is_fixed_hop name ≡ false
    → eq_ignore_ascii_case name (codes "connection") ≡ false
fixed_connection name h =
    any_head (eq_ignore_ascii_case name) (codes "connection") (drop 1 hop_by_hop) h

not_fixed : (a b : Bool) → (not a && b) ≡ true → a ≡ false
not_fixed true b h = sym h
not_fixed false b h = refl

-- A line that passes names no header, and passes without the names of other lines.
line_tokens-none :
    (tokens : List Bytes) (line : Bytes)
    → is_end_to_end tokens line ≡ true
    → (line_tokens line ≡ []) × (is_end_to_end [] line ≡ true)
unfolding line_tokens
line_tokens-none tokens line h = elim (Option-cases (split_header_line line)) [
  | inl e ↦ absurd (cc (ap (has_end_to_end_name tokens) e, h))
  | inr ((name, value), e) ↦
      let fixed : is_fixed_hop name ≡ false =
        not_fixed (is_fixed_hop name) (not (is_connection_token tokens name))
          (sym (ap (has_end_to_end_name tokens) e) ∙ h) in
      (
        rw (e, line_tokens) (rw (fixed_connection name fixed) refl),
        ap (has_end_to_end_name []) e ∙ ap (λ (b : Bool). not b && true) fixed,
      )
]

kept_lines :
    (tokens lines : List Bytes)
    → (connection_tokens (keep (is_end_to_end tokens) lines) ≡ [])
      × (keep (is_end_to_end []) (keep (is_end_to_end tokens) lines)
          ≡ keep (is_end_to_end tokens) lines)
unfolding connection_tokens
kept_lines tokens [] = (refl, refl)
kept_lines tokens (line ∷ lines) = elim (Bool-cases (is_end_to_end tokens line)) [
  | inl kept ↦
      let (none_named, passes) = line_tokens-none tokens line kept in
      let (rest, same) = kept_lines tokens lines in
      rw kept (rw (none_named, rest) refl, rw passes (ap (◌∷◌ line) same))
  | inr dropped ↦ rw dropped (kept_lines tokens lines)
]

-- Filtering headers that have been filtered changes none of their lines.
pub filter_hop_by_hop_headers-twice :
    (headers : Bytes)
    → iter_header_lines (filter_hop_by_hop_headers (filter_hop_by_hop_headers headers))
      ≡ iter_header_lines (filter_hop_by_hop_headers headers)
filter_hop_by_hop_headers-twice headers =
    let once = filter_hop_by_hop_headers_lines headers in
    let (none_named, same) =
      kept_lines (connection_tokens (iter_header_lines headers)) (iter_header_lines headers) in
    filter_hop_by_hop_headers_lines (filter_hop_by_hop_headers headers) ∙ rw (once, none_named) same
