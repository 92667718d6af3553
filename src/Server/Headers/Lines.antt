-- ===== src/Server/Headers/Lines.antt =====
-- Lines that are written out and read again.
use simple_forwarder.Prelude.{
  ℕ, ◌≡◌, refl, ap, false, List, [], ◌∷◌, ◌++◌, arith, append_assoc, ◌==◌, is_nil, All, position,
  none, Bool-cases, inl, inr,
}
use simple_forwarder.Text.{Bytes, codes, split, cut, strip_cr}
use simple_forwarder.Server.Headers.Defs.{nonempty_lines, iter_header_lines}

-- A line that the iterator can give: without a line feed, and not empty.
pub record IsLine (line : Bytes) : Type 0 where
  pub no_feed : position b'\n' line ≡ none
  pub not_nil : is_nil line ≡ false

no_feed-cons :
    (c : ℕ) (s : Bytes)
    → position b'\n' (c ∷ s) ≡ none
    → ((c == b'\n') ≡ false) × (position b'\n' s ≡ none)
no_feed-cons c s h = (ground arith, ground arith)

-- A line feed cuts a text.
pub split-line :
    (line rest : Bytes)
    → position b'\n' line ≡ none
    → split b'\n' (line ++ b'\n' ∷ rest) ≡ line ∷ split b'\n' rest
split-line [] rest h = refl
split-line (c ∷ line) rest h =
    let (other, h') = no_feed-cons c line h in rw (other, split-line line rest h')

strip_cr-append : (line : Bytes) → strip_cr (line ++ b'\r' ∷ []) ≡ line
strip_cr-append [] = refl
strip_cr-append (c ∷ []) = refl
strip_cr-append (c ∷ d ∷ line) = ap (◌∷◌ c) (strip_cr-append (d ∷ line))

position-cr :
    (line : Bytes) → position b'\n' line ≡ none → position b'\n' (line ++ b'\r' ∷ []) ≡ none
position-cr [] h = refl
position-cr (c ∷ line) h = ground (arith, position-cr line)

-- A line that was written with `\r\n` is read as it was.
pub iter_header_lines-line :
    (line rest : Bytes)
    → IsLine line
    → iter_header_lines (line ++ (codes "\r\n" ++ rest)) ≡ line ∷ iter_header_lines rest
unfolding iter_header_lines nonempty_lines
iter_header_lines-line line rest h = rw (
  ← append_assoc line (b'\r' ∷ []) (b'\n' ∷ rest),
  split-line (line ++ b'\r' ∷ []) rest (position-cr line h.no_feed),
  strip_cr-append line,
  h.not_nil,
)

pub iter_header_lines_end : iter_header_lines (codes "\r\n") ≡ []
unfolding iter_header_lines
iter_header_lines_end = refl

-- Every line that the iterator gives is such a line.
position-strip_cr : (s : Bytes) → position b'\n' s ≡ none → position b'\n' (strip_cr s) ≡ none
position-strip_cr [] h = refl
position-strip_cr (c ∷ []) h = ground arith
position-strip_cr (c ∷ d ∷ s) h = ground (arith, position-strip_cr (d ∷ s))

abbrev NoFeed : Bytes → Type 0
NoFeed p = position b'\n' p ≡ none

cut-All : (c : ℕ) (ps : List Bytes) → (c == b'\n') ≡ false → All NoFeed ps → All NoFeed (cut c ps)
cut-All c [] h a = (ground arith, tt)
cut-All c (p ∷ ps) h a = (ground arith, a.1)

split-All : (s : Bytes) → All NoFeed (split b'\n' s)
split-All [] = (refl, tt)
split-All (c ∷ s) = elim (Bool-cases (c == b'\n')) [
  | inl feed ↦ rw feed (refl, split-All s)
  | inr other ↦ rw other (cut-All c (split b'\n' s) other (split-All s))
]

nonempty_lines-All : (ps : List Bytes) → All NoFeed ps → All IsLine (nonempty_lines ps)
unfolding nonempty_lines
nonempty_lines-All [] a = tt
nonempty_lines-All (p ∷ ps) a = elim (Bool-cases (is_nil (strip_cr p))) [
  | inl blank ↦ rw blank (nonempty_lines-All ps a.1)
  | inr text ↦
      rw text
        (record { no_feed = position-strip_cr p a.0; not_nil = text }, nonempty_lines-All ps a.1)
]

pub iter_header_lines-All : (headers : Bytes) → All IsLine (iter_header_lines headers)
unfolding iter_header_lines
iter_header_lines-All headers = nonempty_lines-All (split b'\n' headers) (split-All headers)
