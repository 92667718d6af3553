-- ===== src/Text/Utf16.antt =====
-- The standard library's conversions between text and UTF-16, on text as the numbers of its characters.
use simple_forwarder.Prelude.{
  ℕ, ◌+◌, ◌-◌, ◌*◌, ◌/◌, ◌%◌, not, ◌<◌, ◌≡◌, refl, ap, ◌∙◌, false, ◌||◌, List, [], ◌∷◌, arith, ltb,
  leb, within, if◌then◌else◌, All, Bool-cases, inl, inr,
}

-- A character: any number below 0x110000 that is no surrogate.
abbrev pub IsScalar : ℕ → Type 0
IsScalar c = (c < 0x110000) × (within 0xD800 0xDFFF c ≡ false)

-- `encode_utf16`
unfoldable pub encode_utf16 : List ℕ → List ℕ
encode_utf16 [] = []
encode_utf16 (c ∷ s) =
    if ltb c 0x10000
    then c ∷ encode_utf16 s
    else (0xD800 + (c - 0x10000) / 1024) ∷ (0xDC00 + (c - 0x10000) % 1024) ∷ encode_utf16 s

-- `from_utf16_lossy`: a surrogate without its pair becomes U+FFFD.
unfoldable pub from_utf16_lossy : List ℕ → List ℕ
from_utf16_lossy [] = []
from_utf16_lossy (u ∷ []) = (if within 0xD800 0xDFFF u then 0xFFFD else u) ∷ []
from_utf16_lossy (u ∷ v ∷ s) =
    let single = from_utf16_lossy (v ∷ s) in
    let pair = from_utf16_lossy s in
    if not (within 0xD800 0xDFFF u)
    then u ∷ single
    else if leb 0xDC00 u || not (within 0xDC00 0xDFFF v)
    then 0xFFFD ∷ single
    else (0x10000 + ((u - 0xD800) * 1024 + (v - 0xDC00))) ∷ pair

from_utf16_lossy_plain :
    (u : ℕ) (s : List ℕ)
    → within 0xD800 0xDFFF u ≡ false
    → from_utf16_lossy (u ∷ s) ≡ u ∷ from_utf16_lossy s
unfolding from_utf16_lossy
from_utf16_lossy_plain u [] h = rw h refl
from_utf16_lossy_plain u (v ∷ s) h = rw h refl

from_utf16_lossy_pair :
    (q r : ℕ) (s : List ℕ)
    → q < 1024
    → r < 1024
    → from_utf16_lossy ((0xD800 + q) ∷ (0xDC00 + r) ∷ s)
      ≡ (0x10000 + (q * 1024 + r)) ∷ from_utf16_lossy s
unfolding from_utf16_lossy
from_utf16_lossy_pair q r s hq hr = ground arith

-- Text that is encoded and decoded is the same text.
pub from_utf16_lossy-encode_utf16 :
    (s : List ℕ) → All IsScalar s → from_utf16_lossy (encode_utf16 s) ≡ s
unfolding encode_utf16 from_utf16_lossy
from_utf16_lossy-encode_utf16 [] h = refl
from_utf16_lossy-encode_utf16 (c ∷ s) h = elim (Bool-cases (ltb c 0x10000)) [
  | inl small ↦ rw small (
      from_utf16_lossy_plain c (encode_utf16 s) h.0.1
      ∙ ap (◌∷◌ c) (from_utf16_lossy-encode_utf16 s h.1))
  | inr large ↦ rw large (
      from_utf16_lossy_pair ((c - 0x10000) / 1024) ((c - 0x10000) % 1024) (encode_utf16 s)
        (omega (arith, h.0.0)) (omega arith)
      ∙ ap (λ (x : ℕ). x ∷ from_utf16_lossy (encode_utf16 s)) (ground arith)
      ∙ ap (◌∷◌ c) (from_utf16_lossy-encode_utf16 s h.1))
]
