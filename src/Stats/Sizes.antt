-- ===== src/Stats/Sizes.antt =====
-- `TrafficStats::format_bytes`. A byte count becomes an `f64`, which keeps 53 binary digits; dividing it
-- by a power of two is exact, and `{:.2}` rounds the exact quotient to hundredths. Both round to the
-- nearest, ties to the even neighbour.
use simple_forwarder.Prelude.{
  ℕ, zero, suc, ◌+◌, ◌*◌, ◌/◌, ◌%◌, ◌^◌, ◌≤◌, ◌<◌, ◌≡◌, ◌⊎◌, inl, inr, refl, ap, true, [], ◌∷◌,
  ◌++◌, arith, ltb, ltb→lt, ltb→le, if◌then◌else◌, Bool-cases,
}
use simple_forwarder.Text.{Bytes, codes}
use simple_forwarder.Text.Decimal.{show_dec}

-- a / d, rounded to the nearest number, ties to even.
unfoldable pub round_even : ℕ → ℕ → ℕ
round_even a d =
    let q = a / d in
    let r = a % d in if ltb (2 * r) d then q else if ltb d (2 * r) then q + 1 else q + q % 2

-- The distance of the numbers that an `f64` can hold around n, below 2 ^ 53 times 2 ^ the first argument.
spacing : ℕ → ℕ → ℕ
spacing zero n = 1
spacing (suc f) n = let wider = 2 * spacing f (n / 2) in if ltb n (2 ^ 53) then 1 else wider

-- `bytes as f64`
unfoldable pub to_f64 : ℕ → ℕ
unfolding spacing round_even
to_f64 n = round_even n (spacing 11 n) * spacing 11 n

pub data SizeUnit : Type 0 where
  tb gb mb kb : SizeUnit

abbrev pub size : SizeUnit → ℕ
size tb = 1099511627776
size gb = 1073741824
size mb = 1048576
size kb = 1024

abbrev pub unit_text : SizeUnit → Bytes
unit_text tb = codes " TB"
unit_text gb = codes " GB"
unit_text mb = codes " MB"
unit_text kb = codes " KB"

-- A number of hundredths with two decimals.
unfoldable pub show_hundredths : ℕ → Bytes
show_hundredths h = show_dec (h / 100) ++ b'.' ∷ (b'0' + h % 100 / 10) ∷ (b'0' + h % 10) ∷ []

-- `format!("{:.2} …", bytes as f64 / … as f64)`
unfoldable pub in_unit : ℕ → SizeUnit → Bytes
unfolding to_f64 show_hundredths
in_unit bytes u = show_hundredths (round_even (to_f64 bytes * 100) (size u)) ++ unit_text u

unfoldable pub format_bytes : ℕ → Bytes
unfolding in_unit
format_bytes bytes =
    if ltb bytes (size kb)
    then show_dec bytes ++ codes " B"
    else if ltb bytes (size mb)
    then in_unit bytes kb
    else if ltb bytes (size gb)
    then in_unit bytes mb
    else if ltb bytes (size tb)
    then in_unit bytes gb
    else in_unit bytes tb

-- Up to 2 ^ 53 a count is an `f64` as it is.
to_f64_exact : (n : ℕ) → n < 2 ^ 53 → to_f64 n ≡ n
unfolding to_f64 spacing round_even
to_f64_exact n h = let small : ltb n (2 ^ 53) ≡ true = ground arith in rw small (ground arith)

-- The largest unit that the count fills.
abbrev pub Fills : ℕ → SizeUnit → Type 0
Fills bytes tb = size tb ≤ bytes
Fills bytes gb = (size gb ≤ bytes) × (bytes < size tb)
Fills bytes mb = (size mb ≤ bytes) × (bytes < size gb)
Fills bytes kb = (size kb ≤ bytes) × (bytes < size mb)

-- The hundredths of the unit are off by half a hundredth at most, and are a whole unit at least.
abbrev pub Near : ℕ → ℕ → SizeUnit → Type 0
Near bytes h u =
    (2 * h * size u ≤ 200 * bytes + size u) × (200 * bytes ≤ 2 * h * size u + size u) × (100 ≤ h)

round_even-Near :
    (bytes : ℕ) (u : SizeUnit) → Fills bytes u → Near bytes (round_even (bytes * 100) (size u)) u
unfolding round_even
round_even-Near bytes tb h = ground arith
round_even-Near bytes gb h = ground arith
round_even-Near bytes mb h = ground arith
round_even-Near bytes kb h = ground arith

abbrev pub ShowsSize : ℕ → Bytes → Type 0
ShowsSize bytes s =
    ((bytes < 1024) × (s ≡ show_dec bytes ++ codes " B"))
    ⊎ ((u : SizeUnit) × (h : ℕ) × Fills bytes u
        × Near bytes h u
        × (s ≡ show_hundredths h ++ unit_text u))

in_unit-ShowsSize :
    (bytes : ℕ) (u : SizeUnit) → bytes < 2 ^ 53 → Fills bytes u → ShowsSize bytes (in_unit bytes u)
unfolding in_unit
in_unit-ShowsSize bytes u h fills = inr (
  u,
  round_even (bytes * 100) (size u),
  fills,
  round_even-Near bytes u fills,
  ap (λ (n : ℕ). show_hundredths (round_even (n * 100) (size u)) ++ unit_text u)
      (to_f64_exact bytes h),
)

-- A count below 2 ^ 53 is printed exactly if it is less than 1024 bytes; otherwise in the largest unit
-- that it fills, with two decimals that are off by half a hundredth of the unit at most.
pub format_bytes-ShowsSize : (bytes : ℕ) → bytes < 2 ^ 53 → ShowsSize bytes (format_bytes bytes)
unfolding format_bytes
format_bytes-ShowsSize bytes h = elim (Bool-cases (ltb bytes (size kb))) [
  | inl b ↦ rw b (inl (ltb→lt _ _ b, refl))
  | inr b ↦ rw b (elim (Bool-cases (ltb bytes (size mb))) [
    | inl k ↦ rw k (in_unit-ShowsSize bytes kb h (ltb→le _ _ b, ltb→lt _ _ k))
    | inr k ↦ rw k (elim (Bool-cases (ltb bytes (size gb))) [
      | inl m ↦ rw m (in_unit-ShowsSize bytes mb h (ltb→le _ _ k, ltb→lt _ _ m))
      | inr m ↦ rw m (elim (Bool-cases (ltb bytes (size tb))) [
        | inl g ↦ rw g (in_unit-ShowsSize bytes gb h (ltb→le _ _ m, ltb→lt _ _ g))
        | inr g ↦ rw g (in_unit-ShowsSize bytes tb h (ltb→le _ _ g))
      ])
    ])
  ])
]
