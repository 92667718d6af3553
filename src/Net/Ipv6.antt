-- ===== src/Net/Ipv6.antt =====
-- The text of an IPv6 address.
use mathlib.Core.Option
use simple_forwarder.Prelude.{
  ℕ, zero, suc, ◌+◌, ◌-◌, ◌*◌, ◌/◌, ◌%◌, Bool, true, false, ◌&&◌, ◌||◌, Option, none, some, List,
  [], ◌∷◌, ◌++◌, ◌==◌, ltb, within, if◌then◌else◌, ◌≡◌, refl, length, take, drop, replicate,
}
use simple_forwarder.Text.{Bytes, codes, split, contains}
use simple_forwarder.Net.Ipv4.{show_ipv4, parse_ipv4}

-- The eight 16-bit groups of sixteen octets, and back.
groups_of : Bytes → List ℕ
groups_of [] = []
groups_of (a ∷ []) = []
groups_of (a ∷ b ∷ s) = (a * 256 + b) ∷ groups_of s

octets_of : List ℕ → Bytes
octets_of [] = []
octets_of (g ∷ gs) = (g / 256) ∷ (g % 256) ∷ octets_of gs

hex_digit : ℕ → ℕ
hex_digit d = if ltb d 10 then b'0' + d else b'a' + (d - 10)

-- `{:x}` of a group: no leading zeros.
show_hex : ℕ → Bytes
show_hex g =
    if ltb g 16
    then hex_digit g ∷ []
    else if ltb g 256
    then hex_digit (g / 16) ∷ hex_digit (g % 16) ∷ []
    else if ltb g 4096
    then hex_digit (g / 256) ∷ hex_digit (g / 16 % 16) ∷ hex_digit (g % 16) ∷ []
    else hex_digit (g / 4096)
      ∷ hex_digit (g / 256 % 16)
      ∷ hex_digit (g / 16 % 16)
      ∷ hex_digit (g % 16)
      ∷ []

show_groups : List ℕ → Bytes
show_groups [] = []
show_groups (g ∷ []) = show_hex g
show_groups (g ∷ h ∷ gs) = show_hex g ++ b':' ∷ show_groups (h ∷ gs)

-- The longest run of zero groups, the first of that length: `start` and `len`.
pub record Span : Type 0 where
  pub start : ℕ
  pub len : ℕ

-- `i` is the index, `cur` the run at hand, `best` the longest so far.
longest_zeros : ℕ → Span → Span → List ℕ → Span
longest_zeros i cur best [] = best
longest_zeros i cur best (g ∷ gs) =
    let grown : Span = record {
      start = if cur.len == 0 then i else cur.start;
      len = cur.len + 1;
    } in
    if g == 0
    then longest_zeros (i + 1) grown (if ltb best.len grown.len then grown else best) gs
    else longest_zeros (i + 1) (record { start = 0; len = 0 }) best gs

abbrev no_span : Span
no_span = record { start = 0; len = 0 }

show_plain : List ℕ → Bytes
show_plain gs =
    let z = longest_zeros 0 no_span no_span gs in
    if ltb 1 z.len
    then show_groups (take z.start gs) ++ (b':' ∷ b':' ∷ show_groups (drop (z.start + z.len) gs))
    else show_groups gs

-- `::ffff:a.b.c.d` for the addresses that stand for an IPv4 one.
abbrev is_zero_groups : List ℕ → Bool
is_zero_groups [] = true
is_zero_groups (g ∷ gs) = if g == 0 then is_zero_groups gs else false

is_mapped : List ℕ → Bool
is_mapped gs = is_zero_groups (take 5 gs) && nth_is_ffff (drop 5 gs)
  where
    nth_is_ffff : List ℕ → Bool
    nth_is_ffff [] = false
    nth_is_ffff (g ∷ rest) = g == 65535

unfoldable pub show_ipv6 : Bytes → Bytes
unfolding groups_of hex_digit show_hex show_groups longest_zeros show_plain is_mapped show_ipv4
show_ipv6 o =
    if is_mapped (groups_of o)
    then codes "::ffff:" ++ show_ipv4 (drop 12 o)
    else show_plain (groups_of o)

hex_value : ℕ → Option ℕ
hex_value c =
    if within b'0' b'9' c
    then some (c - b'0')
    else if within b'a' b'f' c
    then some (c - b'a' + 10)
    else if within b'A' b'F' c
    then some (c - b'A' + 10)
    else none

-- A group: one to four hexadecimal digits, and nothing else in the piece.
hex_group : ℕ → ℕ → Bytes → Option ℕ
hex_group room acc [] = some acc
hex_group zero acc (c ∷ s) = none
hex_group (suc room) acc (c ∷ s) = elim (hex_value c) [
  | none ↦ none
  | some d ↦ hex_group room (acc * 16 + d) s
]

abbrev parse_group : Bytes → Option ℕ
parse_group [] = none
parse_group (c ∷ s) = hex_group 4 0 (c ∷ s)

-- Groups between single colons; the last piece may be an IPv4 address, which is two groups.
groups_in : List Bytes → Option (List ℕ)
groups_in [] = some []
groups_in (p ∷ []) = elim (parse_group p) [
  | some g ↦ some (g ∷ [])
  | none ↦ Option.map groups_of (parse_ipv4 p)
]
groups_in (p ∷ q ∷ ps) = elim (parse_group p) [
  | some g ↦ Option.map (λ gs. g ∷ gs) (groups_in (q ∷ ps))
  | none ↦ none
]

-- No text at all holds no group.
abbrev side : Bytes → Option (List ℕ)
side [] = some []
side (c ∷ s) = groups_in (split b':' (c ∷ s))

-- The text in front of the first `::` and the text behind it.
split_gap : Bytes → Option (Bytes × Bytes)
split_gap [] = none
split_gap (a ∷ []) = none
split_gap (a ∷ b ∷ s) =
    let later = Option.map (λ (p : Bytes × Bytes). (a ∷ p.0, p.1)) (split_gap (b ∷ s)) in
    if a == b':' && b == b':' then some ([], s) else later

-- The front of a gap holds no IPv4 part, and the gap stands for one group at least.
fill_gap : Bytes → List ℕ → List ℕ → Option (List ℕ)
fill_gap text front back =
    if contains text b'.' || ltb 7 (length front + length back)
    then none
    else some (front ++ (replicate (8 - (length front + length back)) 0 ++ back))

abbrev eight : List ℕ → Option (List ℕ)
eight gs = if length gs == 8 then some gs else none

infixl 5 ◌>>=◌
abbrev ◌>>=◌ {ℓ κ} : {A : Type ℓ} {B : Type κ} → Option A → (A → Option B) → Option B
none >>= f = none
some a >>= f = f a

parse_groups : Bytes → Option (List ℕ)
parse_groups s = elim (split_gap s) [
  | none ↦ do gs ← side s; eight gs
  | some (a, b) ↦ do front ← side a; back ← side b; fill_gap a front back
]

unfoldable pub parse_ipv6 : Bytes → Option Bytes
unfolding octets_of hex_value hex_group groups_in groups_of split_gap fill_gap parse_groups
    parse_ipv4
parse_ipv6 s = Option.map octets_of (parse_groups s)

mapped :
    Option.map show_ipv6 (parse_ipv6 (codes "::FFFF:192.0.2.1")) ≡ some (codes "::ffff:192.0.2.1")
unfolding parse_ipv6 show_ipv6
mapped = refl

compressed :
    Option.map show_ipv6 (parse_ipv6 (codes "2001:0db8:0:0:1:0:0:1"))
    ≡ some (codes "2001:db8::1:0:0:1")
unfolding parse_ipv6 show_ipv6
compressed = refl

loopback : Option.map show_ipv6 (parse_ipv6 (codes "::1")) ≡ some (codes "::1")
unfolding parse_ipv6 show_ipv6
loopback = refl

no_address : parse_ipv6 (codes "1::2::3") ≡ none
unfolding parse_ipv6
no_address = refl
