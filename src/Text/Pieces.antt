-- ===== src/Text/Pieces.antt =====
-- The pieces of a text between separators.
use simple_forwarder.Prelude.{ℕ, ◌≡◌, refl, ap, false, none, [], ◌∷◌, ◌++◌, arith, ◌==◌, position}
use simple_forwarder.Text.Slices.{Bytes, split, cut}

-- A text without the separator is one piece, and so is what stands in front of the first separator.
pub split_whole : (sep : ℕ) (s : Bytes) → position sep s ≡ none → split sep s ≡ s ∷ []
split_whole sep [] h = refl
split_whole sep (c ∷ s) h =
    let other : (c == sep) ≡ false = ground arith in
    rw other (ap (cut c) (split_whole sep s (ground arith)))

pub split-append :
    (sep : ℕ) (s rest : Bytes)
    → position sep s ≡ none
    → split sep (s ++ sep ∷ rest) ≡ s ∷ split sep rest
split-append sep [] rest h = ground arith
split-append sep (c ∷ s) rest h =
    let other : (c == sep) ≡ false = ground arith in
    rw other (ap (cut c) (split-append sep s rest (ground arith)))

-- Neither of two texts has the byte.
pub position-append :
    (b : ℕ) (s t : Bytes) → position b s ≡ none → position b t ≡ none → position b (s ++ t) ≡ none
position-append b [] t h k = k
position-append b (c ∷ s) t h k = ground (arith, position-append b s t)
