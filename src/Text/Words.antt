-- ===== src/Text/Words.antt =====
-- `trim`, `trim_matches` and `split_whitespace`, by the Unicode white space that they know.
pub mod Plain
use simple_forwarder.Prelude.{
  ℕ, zero, suc, ◌≡◌, refl, Bool, true, false, ◌&&◌, ◌||◌, List, [], ◌∷◌, ◌++◌, ◌==◌, within,
  if◌then◌else◌, is_nil,
}
use simple_forwarder.Text.Slices.{Bytes, codes}

abbrev one : ℕ → Bool
one a = within 9 13 a || a == 32

abbrev two : ℕ → ℕ → Bool
two a b = a == 0xC2 && (b == 0x85 || b == 0xA0)

abbrev three : ℕ → ℕ → ℕ → Bool
three a b c =
    if a == 0xE1
    then b == 0x9A && c == 0x80
    else if a == 0xE3
    then b == 0x80 && c == 0x80
    else if a == 0xE2 && b == 0x80
    then within 0x80 0x8A c || (within 0xA8 0xA9 c || c == 0xAF)
    else a == 0xE2 && (b == 0x81 && c == 0x9F)

-- The width in bytes of the white-space character at the front of the text, or 0.
unfoldable pub ws_width : Bytes → ℕ
ws_width [] = 0
ws_width (a ∷ []) = if one a then 1 else 0
ws_width (a ∷ b ∷ []) = if one a then 1 else if two a b then 2 else 0
ws_width (a ∷ b ∷ c ∷ s) = if one a then 1 else if two a b then 2 else if three a b c then 3 else 0

-- The first argument counts the bytes that are left of the character at hand.
trim_start_from : ℕ → Bytes → Bytes
trim_start_from n [] = []
trim_start_from (suc n) (c ∷ s) = trim_start_from n s
trim_start_from zero (c ∷ s) = elim (ws_width (c ∷ s)) [
  | zero ↦ c ∷ s
  | suc k ↦ trim_start_from k s
]

-- White space is kept only in front of something that is kept.
abbrev before : ℕ → Bytes → Bytes
before c r = if is_nil r then [] else c ∷ r

trim_end_from : ℕ → Bytes → Bytes
trim_end_from n [] = []
trim_end_from (suc n) (c ∷ s) = before c (trim_end_from n s)
trim_end_from zero (c ∷ s) = elim (ws_width (c ∷ s)) [
  | zero ↦ c ∷ trim_end_from 0 s
  | suc k ↦ before c (trim_end_from k s)
]

unfoldable pub trim : Bytes → Bytes
unfolding trim_start_from trim_end_from ws_width
trim s = trim_end_from 0 (trim_start_from 0 s)

-- A word, unless it is empty, in front of the others.
abbrev flush : Bytes → List Bytes → List Bytes
flush [] ws = ws
flush (c ∷ w) ws = (c ∷ w) ∷ ws

words_from : ℕ → Bytes → Bytes → List Bytes
words_from n word [] = flush word []
words_from (suc n) word (c ∷ s) = words_from n word s
words_from zero word (c ∷ s) = elim (ws_width (c ∷ s)) [
  | zero ↦ words_from 0 (word ++ c ∷ []) s
  | suc k ↦ flush word (words_from k [] s)
]

unfoldable pub split_whitespace : Bytes → List Bytes
unfolding words_from ws_width
split_whitespace = words_from 0 []

-- `trim_matches(c)` for one ASCII character.
trim_start_matches : ℕ → Bytes → Bytes
trim_start_matches b [] = []
trim_start_matches b (c ∷ s) = elim (c == b) [ true ↦ trim_start_matches b s | false ↦ c ∷ s ]

trim_end_matches : ℕ → Bytes → Bytes
trim_end_matches b [] = []
trim_end_matches b (c ∷ s) =
    let rest = trim_end_matches b s in if c == b then before c rest else c ∷ rest

unfoldable pub trim_matches : ℕ → Bytes → Bytes
unfolding trim_start_matches trim_end_matches
trim_matches b s = trim_end_matches b (trim_start_matches b s)

request_words :
    split_whitespace (codes " GET  /a HTTP/1.1\r\n")
    ≡ codes "GET" ∷ codes "/a" ∷ codes "HTTP/1.1" ∷ []
unfolding split_whitespace
request_words = refl

wide_space : trim (0xE3 ∷ 0x80 ∷ 0x80 ∷ codes "a b" ++ (0xC2 ∷ 0xA0 ∷ [])) ≡ codes "a b"
unfolding trim
wide_space = refl

quotes : trim_matches b'"' (codes "\"\"a\"b\"") ≡ codes "a\"b"
unfolding trim_matches
quotes = refl
