-- ===== src/Text/Decimal.antt =====
-- Numbers as decimal text: `to_string` of an unsigned number, and `str::parse::<u16>`.
use simple_forwarder.Prelude.{
  ℕ, zero, suc, ◌+◌, ◌-◌, ◌*◌, ◌/◌, ◌%◌, ◌≤◌, ◌<◌, ◌≡◌, refl, ap, ◌∙◌, true, Option, none, some, [],
  ◌∷◌, ◌++◌, arith, false, ◌==◌, ltb, leb, within, if◌then◌else◌, Bool-cases, inl, inr,
}
use simple_forwarder.Text.Slices.{Bytes}

-- The digits of n in front of `rest`, with fuel above n.
digits_onto : ℕ → ℕ → Bytes → Bytes
digits_onto zero n rest = rest
digits_onto (suc f) n rest =
    let more = digits_onto f (n / 10) ((b'0' + n % 10) ∷ rest) in
    if ltb n 10 then (b'0' + n) ∷ rest else more

unfoldable pub show_dec : ℕ → Bytes
unfolding digits_onto
show_dec n = digits_onto (n + 1) n []

-- `checked_mul(10)` and `checked_add` over a w-bit word: `none` past `max`.
unfoldable pub digits_value : ℕ → ℕ → Bytes → Option ℕ
digits_value max acc [] = some acc
digits_value max acc (c ∷ s) =
    let rest = digits_value max (acc * 10 + (c - b'0')) s in
    if within b'0' b'9' c then (if leb (acc * 10 + (c - b'0')) max then rest else none) else none

-- A sign "+" is allowed, an empty text or a lone sign is not.
unfoldable pub parse_unsigned : ℕ → Bytes → Option ℕ
unfolding digits_value
parse_unsigned max [] = none
parse_unsigned max (c ∷ []) = digits_value max 0 (c ∷ [])
parse_unsigned max (c ∷ d ∷ s) =
    if c == b'+' then digits_value max 0 (d ∷ s) else digits_value max 0 (c ∷ d ∷ s)

abbrev pub parse_u16 : Bytes → Option ℕ
parse_u16 = parse_unsigned 65535

-- All bytes of a printed number are digits.
abbrev pub IsDigits : Bytes → Type 0
IsDigits [] = Unit {0}
IsDigits (c ∷ s) = (b'0' ≤ c) × (c ≤ b'9') × IsDigits s

digits_onto-IsDigits : (f n : ℕ) (rest : Bytes) → IsDigits rest → IsDigits (digits_onto f n rest)
unfolding digits_onto
digits_onto-IsDigits zero n rest h = h
digits_onto-IsDigits (suc f) n rest h = elim (Bool-cases (ltb n 10)) [
  | inl small ↦ rw small (ground arith, ground arith, h)
  | inr big ↦ rw big (digits_onto-IsDigits f (n / 10) _ (omega arith, omega arith, h))
]

pub show_dec-IsDigits : (n : ℕ) → IsDigits (show_dec n)
unfolding show_dec
show_dec-IsDigits n = digits_onto-IsDigits (n + 1) n [] tt

digits_value-nil : (max n : ℕ) → digits_value max n [] ≡ some n
unfolding digits_value
digits_value-nil max n = refl

digits_value-small :
    (max n : ℕ) (rest : Bytes)
    → ltb n 10 ≡ true
    → n ≤ max
    → digits_value max 0 ((b'0' + n) ∷ rest) ≡ digits_value max n rest
unfolding digits_value
digits_value-small max n rest h k =
    let e : 0 * 10 + (b'0' + n - b'0') ≡ n = omega arith in rw e (ground arith)

digits_value-digit :
    (max n : ℕ) (rest : Bytes)
    → n ≤ max
    → digits_value max (n / 10) ((b'0' + n % 10) ∷ rest) ≡ digits_value max n rest
unfolding digits_value
digits_value-digit max n rest k =
    let e : n / 10 * 10 + (b'0' + n % 10 - b'0') ≡ n = omega arith in rw e (ground arith)

-- Reading the digits of n from value 0 goes on with the rest from value n.
digits_value-digits_onto :
    (max f n : ℕ) (rest : Bytes)
    → n < f
    → n ≤ max
    → digits_value max 0 (digits_onto f n rest) ≡ digits_value max n rest
unfolding digits_onto
digits_value-digits_onto max zero n rest h k = elim h [ ]
digits_value-digits_onto max (suc f) n rest h k = elim (Bool-cases (ltb n 10)) [
  | inl small ↦ rw small (digits_value-small max n rest small k)
  | inr big ↦ rw big (
      digits_value-digits_onto max f (n / 10) _ (ground arith) (omega arith)
      ∙ digits_value-digit max n rest k)
]

first_digit :
    (f n : ℕ) (rest : Bytes)
    → n < f
    → (d : ℕ) × (s : Bytes) × (digits_onto f n rest ≡ d ∷ s) × (b'0' ≤ d)
unfolding digits_onto
first_digit zero n rest h = elim h [ ]
first_digit (suc f) n rest h = elim (Bool-cases (ltb n 10)) [
  | inl small ↦ (b'0' + n, rest, rw small, omega arith)
  | inr big ↦ rw big (first_digit f (n / 10) ((b'0' + n % 10) ∷ rest) (ground arith))
]

parse_unsigned-digits :
    (max d : ℕ) (s : Bytes) → b'0' ≤ d → parse_unsigned max (d ∷ s) ≡ digits_value max 0 (d ∷ s)
unfolding parse_unsigned
parse_unsigned-digits max d [] h = refl
parse_unsigned-digits max d (c ∷ s) h = ground arith

-- Parsing what `to_string` printed gives the number back, if the type can hold it.
pub parse_unsigned-show_dec : (max n : ℕ) → n ≤ max → parse_unsigned max (show_dec n) ≡ some n
unfolding show_dec
parse_unsigned-show_dec max n h =
    let (d, s, e, k) = first_digit (n + 1) n [] (omega arith) in
    let value : digits_value max 0 (d ∷ s) ≡ some n =
      rw (← e)
        (digits_value-digits_onto max (n + 1) n [] (omega arith) h ∙ digits_value-nil max n) in
    rw e (parse_unsigned-digits max d s k ∙ value)

pub parse_unsigned_nil : (max : ℕ) → parse_unsigned max [] ≡ none
unfolding parse_unsigned
parse_unsigned_nil max = refl

digits_onto-append :
    (f n : ℕ) (rest more : Bytes) → digits_onto f n (rest ++ more) ≡ digits_onto f n rest ++ more
unfolding digits_onto
digits_onto-append zero n rest more = refl
digits_onto-append (suc f) n rest more = elim (Bool-cases (ltb n 10)) [
  | inl small ↦ rw small refl
  | inr big ↦ rw big (digits_onto-append f (n / 10) ((b'0' + n % 10) ∷ rest) more)
]

digits_onto_fuel :
    (f g n : ℕ) (rest : Bytes) → n < f → n < g → digits_onto f n rest ≡ digits_onto g n rest
unfolding digits_onto
digits_onto_fuel zero g n rest h k = elim h [ ]
digits_onto_fuel (suc f) zero n rest h k = elim k [ ]
digits_onto_fuel (suc f) (suc g) n rest h k = elim (Bool-cases (ltb n 10)) [
  | inl small ↦ rw small refl
  | inr big ↦ rw big (digits_onto_fuel f g (n / 10) _ (ground arith) (ground arith))
]

digits_onto_more :
    (f n : ℕ) (rest : Bytes)
    → ltb n 10 ≡ false
    → digits_onto (suc f) n rest ≡ digits_onto f (n / 10) ((b'0' + n % 10) ∷ rest)
unfolding digits_onto
digits_onto_more f n rest h = rw h refl

pub show_dec_small : (n : ℕ) → n < 10 → show_dec n ≡ (b'0' + n) ∷ []
unfolding show_dec digits_onto
show_dec_small zero h = refl
show_dec_small (suc n) h = ground arith

-- The last digit stands behind those of the tenth part.
pub show_dec_step : (n : ℕ) → 10 ≤ n → show_dec n ≡ show_dec (n / 10) ++ (b'0' + n % 10) ∷ []
unfolding show_dec
show_dec_step n h =
    ap (λ (f : ℕ). digits_onto f n []) one_more
    ∙ digits_onto_more n n [] (ground arith)
    ∙ digits_onto_fuel n (n / 10 + 1) (n / 10) _ (omega arith) (omega arith)
    ∙ digits_onto-append (n / 10 + 1) (n / 10) [] ((b'0' + n % 10) ∷ [])
  where
    one_more : n + 1 ≡ suc n
    one_more = omega arith
