-- ===== src/Tray/ReadDuration.antt =====
-- A reader of the run time that `format_duration` of src/tray.rs prints.
pub mod Printed
use simple_forwarder.Prelude.{
  ℕ, suc, ◌+◌, ◌-◌, ◌*◌, ◌/◌, ◌%◌, ◌^◌, ◌≤◌, ◌<◌, ◌≡◌, refl, ap, ◌∙◌, Bool, true, false, ◌&&◌,
  Option, none, some, List, [], ◌∷◌, ◌++◌, append_assoc, append-nil, sym, ==→eq, arith, ltb, ltb→lt,
  ltb→le, zero, ◌==◌, if◌then◌else◌, position, Bool-cases, inl, inr,
}
use simple_forwarder.Text.{Bytes, codes, eq_bytes, split}
use simple_forwarder.Text.Decimal.{
  show_dec, IsDigits, show_dec-IsDigits, parse_unsigned, parse_unsigned-show_dec,
}
use simple_forwarder.Text.Pieces.{split_whole, split-append}
use simple_forwarder.Tray.Duration.{join, amount_text, part, format_duration}

pub data Scale : Type 0 where
  days hours minutes seconds : Scale

abbrev pub name : Scale → Bytes
name days = codes "day"
name hours = codes "hour"
name minutes = codes "minute"
name seconds = codes "second"

abbrev pub size : Scale → ℕ
size days = 86400
size hours = 3600
size minutes = 60
size seconds = 1

abbrev pub max_u64 : ℕ
max_u64 = 2 ^ 64 - 1

-- One of a unit is singular, anything else is plural.
abbrev pub named : ℕ → Scale → Bytes
named n u = name u ++ (if n == 1 then [] else codes "s")

-- An amount of a unit is less than the next greater unit.
abbrev pub cap : Scale → ℕ
cap days = 2 ^ 64
cap hours = 24
cap minutes = 60
cap seconds = 60

-- The unit that the word names behind this number.
pub unit_of : ℕ → Bytes → Option Scale
unit_of n w =
    if eq_bytes w (named n days)
    then some days
    else if eq_bytes w (named n hours)
    then some hours
    else if eq_bytes w (named n minutes)
    then some minutes
    else if eq_bytes w (named n seconds)
    then some seconds
    else none

-- The units get smaller from one to the next, and no amount is 0.
pub allowed : ℕ → ℕ → Scale → Option (ℕ × Scale)
allowed limit n u = if ltb 0 n && (ltb n (cap u) && ltb (size u) limit) then some (n, u) else none

pub read_part : ℕ → Option ℕ → Bytes → Option (ℕ × Scale)
unfolding unit_of allowed
read_part limit none w = none
read_part limit (some n) w = elim (unit_of n w) [ none ↦ none | some u ↦ allowed limit n u ]

pub plus : ℕ → Option ℕ → Option ℕ
plus a (some b) = some (a + b)
plus a none = none

-- Numbers and units in turn.
pub sum_words : ℕ → List Bytes → Option ℕ
unfolding read_part plus
sum_words limit [] = some 0
sum_words limit (n ∷ []) = none
sum_words limit (n ∷ w ∷ ws) = elim (read_part limit (parse_unsigned max_u64 n) w) [
  | none ↦ none
  | some (m, u) ↦ plus (m * size u) (sum_words (size u) ws)
]

abbrev pub no_limit : ℕ
no_limit = 2 ^ 64

-- The seconds that a text of numbers and units names; only no time at all may name an amount of 0.
unfoldable pub read_duration : Bytes → Option ℕ
unfolding sum_words
read_duration s = elim (sum_words no_limit (split b' ' s)) [
  | some secs ↦ some secs
  | none ↦ if eq_bytes s (codes "0 seconds") then some 0 else none
]

pub unit_of-named : (n : ℕ) (u : Scale) → unit_of n (named n u) ≡ some u
unfolding unit_of
unit_of-named n days = elim (Bool-cases (n == 1)) [ inl e ↦ rw e refl | inr e ↦ rw e refl ]
unit_of-named n hours = elim (Bool-cases (n == 1)) [ inl e ↦ rw e refl | inr e ↦ rw e refl ]
unit_of-named n minutes = elim (Bool-cases (n == 1)) [ inl e ↦ rw e refl | inr e ↦ rw e refl ]
unit_of-named n seconds = elim (Bool-cases (n == 1)) [ inl e ↦ rw e refl | inr e ↦ rw e refl ]

pub allowed_lem :
    (limit n : ℕ) (u : Scale) → 0 < n → n < cap u → size u < limit → allowed limit n u ≡ some (n, u)
unfolding allowed
allowed_lem limit n u pos less small = ground arith
