-- ===== src/Util.antt =====
-- src/util.rs: the search for the end of HTTP headers.
pub mod Separator
pub mod Prefix
use simple_forwarder.Prelude.{
  ℕ, ◌+◌, ◌-◌, Bool, true, false, ◌&&◌, Option, none, some, List, [], ◌∷◌, ◌==◌, ltb, if◌then◌else◌,
  length, drop,
}
use simple_forwarder.Text.{Bytes}

-- The width of the separator that starts with the line feed at the front of the text, or 0:
-- `\n\n` is tried first, then `\n\r\n`.
abbrev starts_lf : Bytes → Bool
starts_lf [] = false
starts_lf (c ∷ s) = c == b'\n'

unfoldable pub separator_width : ℕ → ℕ → Bytes → ℕ
separator_width a b s =
    if a == b'\n' then (if b == b'\n' then 2 else if b == b'\r' && starts_lf s then 3 else 0) else 0

-- The loop over `i`, on the text from `i` on; it stops before the last byte.
unfoldable pub separator_from : ℕ → Bytes → Option ℕ
separator_from i [] = none
separator_from i (a ∷ []) = none
separator_from i (a ∷ b ∷ s) =
    let w = separator_width a b s in
    let rest = separator_from (i + 1) (b ∷ s) in if w == 0 then rest else some (i + w)

unfoldable pub find_header_separator : Bytes → ℕ → Option ℕ
find_header_separator buf start_pos =
    if ltb (length buf) 2 then none else separator_from (start_pos - 3) (drop (start_pos - 3) buf)
