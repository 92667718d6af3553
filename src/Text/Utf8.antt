-- ===== src/Text/Utf8.antt =====
-- `String::from_utf8_lossy`: each maximal prefix of a broken sequence becomes U+FFFD.
use simple_forwarder.Prelude.{
  ℕ, ◌-◌, ◌≡◌, refl, ◌<◌, Option, none, some, [], ◌∷◌, ◌++◌, arith, ltb, leb, ◌==◌, within,
  if◌then◌else◌, All,
}
use simple_forwarder.Text.Slices.{Bytes}

-- A sequence that has begun: its bytes so far, how many more it wants, and the range of the next.
pub record Pending : Type 0 where
  pub seen : Bytes
  pub want : ℕ
  pub lo : ℕ
  pub hi : ℕ

abbrev pub replacement : Bytes
replacement = 0xEF ∷ 0xBF ∷ 0xBD ∷ []

abbrev pending : ℕ → ℕ → ℕ → ℕ → Option Pending
pending c want lo hi = some (record { seen = c ∷ []; want = want; lo = lo; hi = hi })

-- What a leading byte opens; `none` for a byte that leads no sequence of two or more.
abbrev leads : ℕ → Option Pending
leads c =
    if within 0xC2 0xDF c
    then pending c 1 0x80 0xBF
    else if c == 0xE0
    then pending c 2 0xA0 0xBF
    else if c == 0xED
    then pending c 2 0x80 0x9F
    else if within 0xE1 0xEF c
    then pending c 2 0x80 0xBF
    else if c == 0xF0
    then pending c 3 0x90 0xBF
    else if within 0xF1 0xF3 c
    then pending c 3 0x80 0xBF
    else if c == 0xF4
    then pending c 3 0x80 0x8F
    else none

-- The output for one leading byte, and the sequence that it opens.
abbrev begin : ℕ → Bytes × Option Pending
begin c =
    if ltb c 0x80
    then (c ∷ [], none)
    else elim (leads c) [ none ↦ (replacement, none) | some p ↦ ([], some p) ]

abbrev continue : Pending → ℕ → Bytes × Option Pending
continue p c =
    if leb p.want 1
    then (p.seen ++ c ∷ [], none)
    else ([], some (record { seen = p.seen ++ c ∷ []; want = p.want - 1; lo = 0x80; hi = 0xBF }))

utf8_step : Option Pending → ℕ → Bytes × Option Pending
utf8_step none c = begin c
utf8_step (some p) c =
    if within p.lo p.hi c then continue p c else (replacement ++ (begin c).0, (begin c).1)

lossy_from : Option Pending → Bytes → Bytes
lossy_from none [] = []
lossy_from (some p) [] = replacement
lossy_from st (c ∷ s) = (utf8_step st c).0 ++ lossy_from (utf8_step st c).1 s

unfoldable pub from_utf8_lossy : Bytes → Bytes
unfolding lossy_from utf8_step
from_utf8_lossy = lossy_from none

-- ASCII text is taken as it is.
pub from_utf8_lossy_ascii : (s : Bytes) → All (λ c. c < 0x80) s → from_utf8_lossy s ≡ s
unfolding from_utf8_lossy
from_utf8_lossy_ascii [] h = refl
from_utf8_lossy_ascii (c ∷ s) h = ground (arith, from_utf8_lossy_ascii s h.1)

cut_short :
    from_utf8_lossy (b'a' ∷ 0xE2 ∷ 0x82 ∷ b'b' ∷ 0xC3 ∷ 0xA9 ∷ [])
    ≡ b'a' ∷ 0xEF ∷ 0xBF ∷ 0xBD ∷ b'b' ∷ 0xC3 ∷ 0xA9 ∷ []
unfolding from_utf8_lossy
cut_short = refl
