-- ===== src/Tray/ReadDuration/Printed.antt =====
-- The run time printed by `format_duration` of src/tray.rs, read back.
use simple_forwarder.Prelude.{
  ℕ, suc, ◌+◌, ◌*◌, ◌/◌, ◌%◌, ◌^◌, ◌≤◌, ◌<◌, ◌≡◌, refl, ap, ◌∙◌, Bool, true, false, none, some,
  List, [], ◌∷◌, ◌++◌, append_assoc, append-nil, sym, ==→eq, arith, ltb, ltb→lt, ltb→le, zero, ◌==◌,
  if◌then◌else◌, position, Bool-cases, inl, inr,
}
use simple_forwarder.Text.{Bytes, codes, split}
use simple_forwarder.Text.Decimal.{
  show_dec, IsDigits, show_dec-IsDigits, parse_unsigned, parse_unsigned-show_dec,
}
use simple_forwarder.Text.Pieces.{split_whole, split-append}
use simple_forwarder.Tray.Duration.{join, amount_text, part, format_duration}
use simple_forwarder.Tray.ReadDuration.{
  Scale, days, hours, minutes, seconds, name, size, max_u64, named, cap, unit_of, allowed,
  read_part, plus, sum_words, no_limit, read_duration, unit_of-named, allowed_lem,
}

abbrev Parts : Type 0
Parts = List (ℕ × Scale)

abbrev text : ℕ × Scale → Bytes
text (n, u) = amount_text n (name u)

abbrev texts : Parts → List Bytes
texts [] = []
texts (p ∷ ps) = text p ∷ texts ps

texts-append : (ps qs : Parts) → texts (ps ++ qs) ≡ texts ps ++ texts qs
texts-append [] qs = refl
texts-append (p ∷ ps) qs = ap (◌∷◌ (text p)) (texts-append ps qs)

abbrev words : Parts → List Bytes
words [] = []
words ((n, u) ∷ ps) = show_dec n ∷ (name u ++ (if ltb 1 n then codes "s" else [])) ∷ words ps

digits_no_space : (s : Bytes) → IsDigits s → position b' ' s ≡ none
digits_no_space [] h = refl
digits_no_space (c ∷ s) h = ground (arith, digits_no_space s)

unit_no_space :
    (b : Bool) (u : Scale) → position b' ' (name u ++ (if b then codes "s" else [])) ≡ none
unit_no_space true days = refl
unit_no_space true hours = refl
unit_no_space true minutes = refl
unit_no_space true seconds = refl
unit_no_space false days = refl
unit_no_space false hours = refl
unit_no_space false minutes = refl
unit_no_space false seconds = refl

-- Joined by spaces and cut at them, the parts give their words.
split-join :
    (n : ℕ) (u : Scale) (ps : Parts) → split b' ' (join (texts ((n, u) ∷ ps))) ≡ words ((n, u) ∷ ps)
unfolding join amount_text
split-join n u [] =
    split-append b' ' (show_dec n) _ (digits_no_space _ (show_dec-IsDigits n))
    ∙ ap (◌∷◌ (show_dec n)) (split_whole b' ' _ (unit_no_space (ltb 1 n) u))
split-join n u ((m, v) ∷ ps) =
    ap (split b' ') (append_assoc (show_dec n) (b' ' ∷ unit) (b' ' ∷ later))
    ∙ split-append b' ' (show_dec n) _ (digits_no_space _ (show_dec-IsDigits n))
    ∙ ap (◌∷◌ (show_dec n)) (
        split-append b' ' unit later (unit_no_space (ltb 1 n) u)
        ∙ ap (◌∷◌ unit) (split-join m v ps))
  where
    unit : Bytes
    unit = name u ++ (if ltb 1 n then codes "s" else [])

    later : Bytes
    later = join (texts ((m, v) ∷ ps))

-- The parts that there are some of.
abbrev some_of : ℕ → Scale → Parts
some_of n u = if ltb 0 n then (n, u) ∷ [] else []

parts-some_of :
    (n : ℕ) (u : Scale) (ps : Parts) → part n (name u) ++ texts ps ≡ texts (some_of n u ++ ps)
unfolding part
parts-some_of n u ps = elim (Bool-cases (ltb 0 n)) [ inl e ↦ rw e refl | inr e ↦ rw e refl ]

unit_is : (n : ℕ) (u : Scale) → 0 < n → (name u ++ (if ltb 1 n then codes "s" else [])) ≡ named n u
unit_is n u h = ground arith

read_part-part :
    (limit n : ℕ) (u : Scale)
    → n ≤ max_u64
    → 0 < n
    → n < cap u
    → size u < limit
    → read_part limit
        (parse_unsigned max_u64 (show_dec n))
        (name u ++ (if ltb 1 n then codes "s" else []))
      ≡ some (n, u)
unfolding read_part
read_part-part limit n u h pos less small =
    rw (parse_unsigned-show_dec max_u64 n h, unit_is n u pos, read_part)
      (rw (unit_of-named n u) (allowed_lem limit n u pos less small))

sum_words-part :
    (limit m r : ℕ) (u : Scale) (s w : Bytes) (ws : List Bytes)
    → read_part limit (parse_unsigned max_u64 s) w ≡ some (m, u)
    → sum_words (size u) ws ≡ some r
    → sum_words limit (s ∷ w ∷ ws) ≡ some (m * size u + r)
unfolding sum_words plus
sum_words-part limit m r u s w ws e k = rw (e, sum_words) (rw (k, plus) refl)

sum_words-some_of :
    (n r limit : ℕ) (u : Scale) (ps : Parts)
    → n ≤ max_u64
    → n < cap u
    → size u < limit
    → ((l : ℕ) → size u ≤ l → sum_words l (words ps) ≡ some r)
    → sum_words limit (words (some_of n u ++ ps)) ≡ some (n * size u + r)
sum_words-some_of n r limit u ps h less small k = elim (Bool-cases (ltb 0 n)) [
  | inl e ↦ rw e (
      sum_words-part limit n r u (show_dec n) _ (words ps)
        (read_part-part limit n u h (ltb→lt 0 n e) less small) (k (size u) (omega arith)))
  | inr e ↦ rw e (k limit (omega arith) ∙ ap some (none_of n (ltb→le 0 n e)))
]
  where
    none_of : (n : ℕ) → n ≤ 0 → r ≡ n * size u + r
    none_of zero h = omega arith
    none_of (suc n) h = absurd (omega arith)

module _ (secs : ℕ) where
  from_seconds : Parts
  from_seconds = some_of (secs % 60) seconds ++ []

  from_minutes : Parts
  unfolding from_seconds
  from_minutes = some_of (secs % 3600 / 60) minutes ++ from_seconds

  from_hours : Parts
  unfolding from_minutes
  from_hours = some_of (secs % 86400 / 3600) hours ++ from_minutes

  all_parts : Parts
  unfolding from_hours
  all_parts = some_of (secs / 86400) days ++ from_hours

  part-all_parts :
      part (secs / 86400) (codes "day")
        ++ (part (secs % 86400 / 3600) (codes "hour")
            ++ (part (secs % 3600 / 60) (codes "minute") ++ part (secs % 60) (codes "second")))
      ≡ texts all_parts
  unfolding all_parts
  part-all_parts =
      ap (◌++◌ (part (secs / 86400) (codes "day"))) (
        ap (◌++◌ (part (secs % 86400 / 3600) (codes "hour"))) (
          ap (◌++◌ (part (secs % 3600 / 60) (codes "minute"))) (
            sym (append-nil (part (secs % 60) (codes "second")))
            ∙ parts-some_of (secs % 60) seconds [])
          ∙ parts-some_of (secs % 3600 / 60) minutes from_seconds)
        ∙ parts-some_of (secs % 86400 / 3600) hours from_minutes)
      ∙ parts-some_of (secs / 86400) days from_hours

  sum_words-all_parts : secs < 2 ^ 64 → sum_words no_limit (words all_parts) ≡ some secs
  unfolding all_parts sum_words
  sum_words-all_parts h =
      sum_words-some_of (secs / 86400) _ no_limit days from_hours (omega arith) (omega arith)
        (omega arith)
        (λ l more.
          sum_words-some_of (secs % 86400 / 3600) _ l hours from_minutes (omega arith) (omega arith)
            (omega arith)
            (λ l more.
              sum_words-some_of (secs % 3600 / 60) _ l minutes from_seconds (omega arith)
                (omega arith) (omega arith)
                (λ l more.
                  sum_words-some_of (secs % 60) 0 l seconds [] (omega arith) (omega arith)
                    (omega arith) (λ l more. refl))))
      ∙ ap some (omega arith)

read-join :
    (ps : Parts) (r : ℕ)
    → 0 < r
    → sum_words no_limit (words ps) ≡ some r
    → read_duration (join (texts ps)) ≡ some r
unfolding read_duration sum_words join
read-join [] r h k = absurd (ground arith)
read-join ((n, u) ∷ ps) r h k =
    let whole : sum_words no_limit (split b' ' (join (texts ((n, u) ∷ ps)))) ≡ some r =
      ap (sum_words no_limit) (split-join n u ps) ∙ k in
    rw whole refl

zero_seconds : read_duration (codes "0 seconds") ≡ some 0
unfolding read_duration parse_unsigned unit_of allowed
zero_seconds = refl

-- The run time as it is printed, read back word by word, is the number of seconds. The reader takes the units
-- in the singular for one and in the plural for more, each at most once, the greater first, in amounts
-- that are less than the next greater unit, and none of 0 but in "0 seconds": units of which there are
-- none are left out.
pub read_duration-format_duration :
    (secs : ℕ) → secs < 2 ^ 64 → read_duration (format_duration secs) ≡ some secs
unfolding format_duration
read_duration-format_duration secs h = elim (Bool-cases (secs == 0)) [
  | inl e ↦ rw e (zero_seconds ∙ ap some (sym (==→eq secs 0 e)))
  | inr e ↦
      rw (e, part-all_parts secs)
        (read-join (all_parts secs) secs (ground arith) (sum_words-all_parts secs h))
]
