-- ===== src/Util/Separator.antt =====
-- The search for the header separator: what it finds, that a longer text changes nothing that was
-- found, and that the hint `start_pos` changes nothing.
use simple_forwarder.Prelude.{
  ℕ, zero, suc, ◌+◌, ◌-◌, ◌≤◌, ◌<◌, ◌≡◌, refl, sym, subst, ◌∙◌, inl, inr, true, false, Option, none,
  some, [], ◌∷◌, ◌++◌, arith, ◌==◌, ltb, fun_ext, if◌then◌else◌, length, drop, Bool-cases,
  length-drop,
}
use simple_forwarder.Text.{Bytes, codes, starts_with}
use simple_forwarder.Util.{separator_width, separator_from, find_header_separator}

-- The width of the separator at the front of the text, or 0.
abbrev pub width_at : Bytes → ℕ
width_at [] = 0
width_at (a ∷ []) = 0
width_at (a ∷ b ∷ s) = separator_width a b s

-- The same in the words of HTTP: two line feeds, with a carriage return between them or not.
abbrev pub blank_line : Bytes → ℕ
blank_line s =
    if starts_with (codes "\n\n") s then 2 else if starts_with (codes "\n\r\n") s then 3 else 0

-- `r` is the end of the first place of the text where `width` is not 0, counted from `i`, or says that it
-- has none.
abbrev pub FirstEnd : (Bytes → ℕ) → ℕ → Bytes → Option ℕ → Type 0
FirstEnd width i s none = (k : ℕ) → width (drop k s) ≡ 0
FirstEnd width i s (some p) =
    (k : ℕ) × (p ≡ i + k + width (drop k s))
    × (0 < width (drop k s))
    × ((j : ℕ) → j < k → width (drop j s) ≡ 0)

FirstEnd-cons :
    (i a : ℕ) (s : Bytes) (r : Option ℕ)
    → width_at (a ∷ s) ≡ 0
    → FirstEnd width_at (i + 1) s r
    → FirstEnd width_at i (a ∷ s) r
FirstEnd-cons i a s none h f = λ k. go k
  where
    go : (k : ℕ) → width_at (drop k (a ∷ s)) ≡ 0
    go zero = h
    go (suc k) = f k
FirstEnd-cons i a s (some p) h (k, e, w, least) = (suc k, omega arith, w, λ j. go j)
  where
    go : (j : ℕ) → j < suc k → width_at (drop j (a ∷ s)) ≡ 0
    go zero l = h
    go (suc j) l = least j (omega arith)

separator_from-hit :
    (i a b : ℕ) (s : Bytes)
    → (separator_width a b s == 0) ≡ false
    → separator_from i (a ∷ b ∷ s) ≡ some (i + separator_width a b s)
unfolding separator_from
separator_from-hit i a b s h = rw h

separator_from-miss :
    (i a b : ℕ) (s : Bytes)
    → (separator_width a b s == 0) ≡ true
    → separator_from i (a ∷ b ∷ s) ≡ separator_from (i + 1) (b ∷ s)
unfolding separator_from
separator_from-miss i a b s h = rw h

separator_from-FirstEnd : (i : ℕ) (s : Bytes) → FirstEnd width_at i s (separator_from i s)
unfolding separator_from
separator_from-FirstEnd i [] =
    λ k. elim k as (λ k. width_at (drop k []) ≡ 0) [ zero ↦ refl | suc k ↦ refl ]
separator_from-FirstEnd i (a ∷ []) =
    FirstEnd-cons i a [] none refl (separator_from-FirstEnd (i + 1) [])
separator_from-FirstEnd i (a ∷ b ∷ s) = elim (Bool-cases (separator_width a b s == 0)) [
  | inl miss ↦ rw (separator_from-miss i a b s miss) (
      FirstEnd-cons i a (b ∷ s) (separator_from (i + 1) (b ∷ s)) (ground arith)
        (separator_from-FirstEnd (i + 1) (b ∷ s)))
  | inr hit ↦ rw (separator_from-hit i a b s hit) (0, omega arith, ground arith, λ j l. elim l [ ])
]

drop-short : (n : ℕ) (s : Bytes) → length s < 2 → separator_from n s ≡ none
unfolding separator_from
drop-short n [] h = refl
drop-short n (a ∷ []) h = refl
drop-short n (a ∷ b ∷ s) h = absurd (omega arith)

-- From the start of the text the search is the loop.
pub find_header_separator_start : (buf : Bytes) → find_header_separator buf 0 ≡ separator_from 0 buf
unfolding find_header_separator
find_header_separator_start buf = elim (Bool-cases (ltb (length buf) 2)) [
  | inl short ↦ rw (short, drop-short 0 buf (ground arith))
  | inr long ↦ rw long
]

width_at-blank_line : (s : Bytes) → width_at s ≡ blank_line s
unfolding separator_width
width_at-blank_line [] = refl
width_at-blank_line (a ∷ []) = ground arith
width_at-blank_line (a ∷ b ∷ []) = ground arith
width_at-blank_line (a ∷ b ∷ c ∷ s) = ground arith

search-FirstEnd : (buf : Bytes) → FirstEnd width_at 0 buf (find_header_separator buf 0)
search-FirstEnd buf = rw (find_header_separator_start buf) (separator_from-FirstEnd 0 buf)

-- The search from the beginning of the text finds the end of its first `\n\n` or `\n\r\n`, and
-- `none` exactly if the text holds neither.
pub find_header_separator-FirstEnd :
    (buf : Bytes) → FirstEnd blank_line 0 buf (find_header_separator buf 0)
find_header_separator-FirstEnd buf =
    subst (λ (width : Bytes → ℕ). FirstEnd width 0 buf (find_header_separator buf 0))
      (fun_ext width_at-blank_line) (search-FirstEnd buf)

-- A separator is decided by three bytes.
width_at-append : (s t : Bytes) → 3 ≤ length s → width_at (s ++ t) ≡ width_at s
unfolding separator_width
width_at-append [] t h = absurd (omega arith)
width_at-append (a ∷ []) t h = absurd (omega arith)
width_at-append (a ∷ b ∷ []) t h = absurd (omega arith)
width_at-append (a ∷ b ∷ c ∷ s) t h = refl

pub drop-append : (k : ℕ) (s t : Bytes) → k ≤ length s → drop k (s ++ t) ≡ drop k s ++ t
drop-append zero s t h = refl
drop-append (suc k) [] t h = elim h [ ]
drop-append (suc k) (c ∷ s) t h = drop-append k s t (omega arith)

width_at-drop-append :
    (k : ℕ) (s t : Bytes) → k + 3 ≤ length s → width_at (drop k (s ++ t)) ≡ width_at (drop k s)
width_at-drop-append k s t h =
    rw (drop-append k s t (omega arith))
      (width_at-append (drop k s) t (omega (arith, length-drop k s)))

drop-nil-short : (n : ℕ) → length {A = ℕ} (drop n []) < 2
drop-nil-short zero = omega arith
drop-nil-short (suc n) = omega arith

-- The loop may start behind places that hold no separator.
separator_from-skip :
    (n i : ℕ) (s : Bytes)
    → ((j : ℕ) → j < n → width_at (drop j s) ≡ 0)
    → separator_from i s ≡ separator_from (i + n) (drop n s)
separator_from-skip zero i s h = let e : i + 0 ≡ i = omega arith in rw e
separator_from-skip (suc n) i [] h = unfold separator_from in refl
separator_from-skip (suc n) i (a ∷ []) h =
    drop-short i (a ∷ []) (omega arith)
    ∙ sym (drop-short (i + suc n) (drop n []) (omega (arith, drop-nil-short n)))
separator_from-skip (suc n) i (a ∷ b ∷ s) h =
    let e : i + suc n ≡ i + 1 + n = omega arith in
    let here = h 0 (omega arith) in
    separator_from-miss i a b s (ground arith)
    ∙ separator_from-skip n (i + 1) (b ∷ s) (λ j l. h (suc j) (omega arith))
    ∙ rw e

-- The hint is sound: behind a text with no separator, a search that starts at the old length finds
-- what a search from the beginning finds.
pub find_header_separator_hint :
    (buf new : Bytes)
    → find_header_separator buf 0 ≡ none
    → find_header_separator (buf ++ new) (length buf) ≡ find_header_separator (buf ++ new) 0
unfolding find_header_separator
find_header_separator_hint buf new e = elim (Bool-cases (ltb (length (buf ++ new)) 2)) [
  | inl short ↦ rw short
  | inr long ↦
      let start : 0 + (length buf - 3) ≡ length buf - 3 = omega arith in
      rw long (sym (rw start at (separator_from-skip (length buf - 3) 0 (buf ++ new) clear)))
]
  where
    clear : (j : ℕ) → j < length buf - 3 → width_at (drop j (buf ++ new)) ≡ 0
    clear j h =
        width_at-drop-append j buf new (omega arith)
        ∙ (subst (FirstEnd width_at 0 buf) e (search-FirstEnd buf)) j
