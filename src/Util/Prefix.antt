-- ===== src/Util/Prefix.antt =====
-- The search on a text and on its beginnings.
use simple_forwarder.Prelude.{ℕ, ◌+◌, ◌≤◌, ◌≡◌, sym, ◌∙◌, some, [], ◌∷◌, ◌++◌, arith, length}
use simple_forwarder.Text.{Bytes}
use simple_forwarder.Util.{separator_width, separator_from, find_header_separator}
use simple_forwarder.Util.Separator.{find_header_separator_start}

separator_from-bounds :
    (i : ℕ) (s : Bytes) {p : ℕ} → separator_from i s ≡ some p → (i + 2 ≤ p) × (p ≤ i + length s)
unfolding separator_from separator_width
separator_from-bounds i [] e = cc
separator_from-bounds i (a ∷ []) e = cc
separator_from-bounds i (a ∷ b ∷ []) e = ground arith
separator_from-bounds i (a ∷ b ∷ c ∷ s) {p} e =
    ground (arith, separator_from-bounds (i + 1) (b ∷ c ∷ s) {p = p})

separator_from-append :
    (i : ℕ) (s t : Bytes) {p : ℕ} → separator_from i s ≡ some p → separator_from i (s ++ t) ≡ some p
unfolding separator_from separator_width
separator_from-append i [] t e = cc
separator_from-append i (a ∷ []) t e = cc
separator_from-append i (a ∷ b ∷ []) t e = ground arith
separator_from-append i (a ∷ b ∷ c ∷ s) t {p} e =
    ground (arith, separator_from-append (i + 1) (b ∷ c ∷ s) t {p = p})

separator_from-prefix :
    (i : ℕ) (s t : Bytes) {p : ℕ}
    → separator_from i (s ++ t) ≡ some p
    → p ≤ i + length s
    → separator_from i s ≡ some p
unfolding separator_from separator_width
separator_from-prefix i [] t e h = absurd (omega (arith, (separator_from-bounds i t e).0))
separator_from-prefix i (a ∷ []) t e h =
    absurd (omega (arith, (separator_from-bounds i (a ∷ t) e).0))
separator_from-prefix i (a ∷ b ∷ []) t {p} e h =
    ground (arith, separator_from-bounds (i + 1) (b ∷ t) {p = p})
separator_from-prefix i (a ∷ b ∷ c ∷ s) t {p} e h =
    ground (arith, separator_from-prefix (i + 1) (b ∷ c ∷ s) t {p = p})

-- What is found lies in the text.
pub find_header_separator-bounds :
    (buf : Bytes) {p : ℕ} → find_header_separator buf 0 ≡ some p → (2 ≤ p) × (p ≤ length buf)
find_header_separator-bounds buf e =
    let b = separator_from-bounds 0 buf (sym (find_header_separator_start buf) ∙ e) in
    omega (arith, b.0, b.1)

-- Bytes that arrive later change nothing that was found.
pub find_header_separator-append :
    (buf new : Bytes) {p : ℕ}
    → find_header_separator buf 0 ≡ some p
    → find_header_separator (buf ++ new) 0 ≡ some p
find_header_separator-append buf new e =
    find_header_separator_start (buf ++ new)
    ∙ separator_from-append 0 buf new (sym (find_header_separator_start buf) ∙ e)

-- A separator that ends in what has arrived is found at once.
pub find_header_separator-prefix :
    (buf new : Bytes) {p : ℕ}
    → find_header_separator (buf ++ new) 0 ≡ some p
    → p ≤ length buf
    → find_header_separator buf 0 ≡ some p
find_header_separator-prefix buf new e h =
    find_header_separator_start buf
    ∙ separator_from-prefix 0 buf new (sym (find_header_separator_start (buf ++ new)) ∙ e)
        (omega arith)
